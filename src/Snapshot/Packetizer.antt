-- ===== src/Snapshot/Packetizer.antt =====
-- NeuronCore/SnapshotPacketizer.h: a snapshot in datagrams of whole entities.
pub mod Cover
use deepspace_outpost_dx.Base.{
  leb, ◌==◌, if◌then◌else◌, length, drop, take, ℕ, zero, suc, ◌-◌, ◌/◌, Bool, true, List, [], ◌∷◌,
  map,
}
use deepspace_outpost_dx.Snapshot.Quantize.{Floats}
use deepspace_outpost_dx.Snapshot.World.{
  snapshot_header_size, snapshot_entity_size, EntitySnapshot, any_viewer, WorldSnapshot,
  write_snapshot,
}

unfoldable pub entities_per_datagram : ℕ → ℕ
entities_per_datagram max =
    let fit = (max - snapshot_header_size) / snapshot_entity_size in
    if leb max snapshot_header_size then 1 else if fit == 0 then 1 else fit

-- The ranges from `i` to `end` of the loop, which has a round for each entity at most.
unfoldable pub pieces {ℓ} : {A : Type ℓ} → ℕ → ℕ → List A → List (List A)
pieces zero per es = []
pieces (suc fuel) per [] = []
pieces (suc fuel) per (e ∷ es) = take per (e ∷ es) ∷ pieces fuel per (drop per (e ∷ es))

module _ {F : Type 0} where
  unfoldable pub keep_alive : WorldSnapshot F → WorldSnapshot F
  keep_alive s = record {
    tick = s.tick;
    viewer = any_viewer;
    origin = s.origin;
    complete = true;
    entities = [];
  }

  unfoldable pub part : WorldSnapshot F → Bool → List (EntitySnapshot F) → WorldSnapshot F
  part s single es = record {
    tick = s.tick;
    viewer = any_viewer;
    origin = s.origin;
    complete = single;
    entities = es;
  }

  -- The snapshots that are written, one in each datagram.
  unfoldable pub parts : ℕ → WorldSnapshot F → List (WorldSnapshot F)
  parts max s =
      let per = entities_per_datagram max in
      let single = leb (length s.entities) per in
      elim s.entities [
        | [] ↦ keep_alive s ∷ []
        | _ ∷ _ ↦ map (part s single) (pieces (length s.entities) per s.entities)
      ]

unfoldable pub packetize_snapshot : (fl : Floats) → WorldSnapshot fl.F → ℕ → List (List ℕ)
packetize_snapshot fl s max = map (λ p. write_snapshot fl p []) (parts max s)
