-- ===== src/Snapshot/Delta.antt =====
-- NeuronCore/SnapshotDelta.h: what changed since a snapshot that the receiver holds.
-- The hash map from ids to baseline entities is an association list, a hash set of ids a list.
pub mod Lookup
pub mod Apply
pub mod Codec
use deepspace_outpost_dx.Base.{
  ltb, ◌==◌, if◌then◌else◌, length, get_or, lookup, insert, ℕ, zero, suc, ◌+◌, ◌*◌, ◌%◌, ◌^◌, Bool,
  true, false, not, ◌&&◌, ◌||◌, Option, none, some, List, [], ◌∷◌, ◌++◌,
}
use deepspace_outpost_dx.Base.Int.{◌==ℤ◌}
use deepspace_outpost_dx.Wire.{
  write_u16, write_u32, Reader, Read, ◌>>=◌, ◌>>◌, ret, read_u16, read_u32, ok,
}
use deepspace_outpost_dx.Snapshot.Quantize.{Floats, quantize_unit, quantize_speed}
use deepspace_outpost_dx.Snapshot.World.{
  snapshot_magic, peek_magic, EntitySnapshot, Origin, WorldSnapshot, write_origin, read_origin,
  write_records, read_records,
}

abbrev pub delta_version : ℕ
delta_version = 3

abbrev pub delta_header_size : ℕ
delta_header_size = 4 + 2 + 4 + 4 + 8 * 3 + 4 + 2 + 2

pub record DeltaSnapshot (F : Type 0) : Type 0 where
  pub tick : ℕ
  pub viewer : ℕ
  pub origin : Origin
  pub baseline_tick : ℕ
  pub changed : List (EntitySnapshot F)
  pub removed : List ℕ

unfoldable pub contains : ℕ → List ℕ → Bool
contains k [] = false
contains k (j ∷ js) = j == k || contains k js

unfoldable pub peek_snapshot_version : List ℕ → ℕ
peek_snapshot_version bytes =
    if ltb (length bytes) 6 || not (peek_magic bytes == snapshot_magic)
    then 0
    else get_or bytes 4 0 + get_or bytes 5 0 * 2 ^ 8

unfoldable pub write_ids : List ℕ → List ℕ → List ℕ
write_ids [] w = w
write_ids (k ∷ ks) w = write_ids ks (write_u32 k w)

unfoldable pub read_ids : ℕ → Read (List ℕ)
read_ids zero = ret []
read_ids (suc n) = do k ← read_u32; ks ← read_ids n; ret (k ∷ ks)

-- The ids that are not in a set.
unfoldable pub absent : List ℕ → List ℕ → List ℕ
absent [] present = []
absent (k ∷ ks) present =
    let rest = absent ks present in if contains k present then rest else k ∷ rest

module _ (fl : Floats) where
  open fl use {F}

  unfoldable pub same_on_wire : EntitySnapshot F → EntitySnapshot F → Bool
  same_on_wire a b =
      a.id == b.id
      && a.x ==ℤ b.x
      && a.y ==ℤ b.y
      && a.z ==ℤ b.z
      && a.type ==ℤ b.type
      && quantize_unit fl a.nose_x ==ℤ quantize_unit fl b.nose_x
      && quantize_unit fl a.nose_y ==ℤ quantize_unit fl b.nose_y
      && quantize_unit fl a.nose_z ==ℤ quantize_unit fl b.nose_z
      && quantize_unit fl a.roof_x ==ℤ quantize_unit fl b.roof_x
      && quantize_unit fl a.roof_y ==ℤ quantize_unit fl b.roof_y
      && quantize_unit fl a.roof_z ==ℤ quantize_unit fl b.roof_z
      && quantize_speed fl a.speed ==ℤ quantize_speed fl b.speed

module _ {F : Type 0} where
  abbrev pub ids : List (EntitySnapshot F) → List ℕ
  ids [] = []
  ids (e ∷ es) = e.id ∷ ids es

  -- `for (e : baseline) base[e.id] = &e`
  unfoldable pub index_of :
      List (EntitySnapshot F) → List (ℕ × EntitySnapshot F) → List (ℕ × EntitySnapshot F)
  index_of [] d = d
  index_of (e ∷ es) d = index_of es (insert e.id e d)

  -- The baseline entities that survive unchanged.
  unfoldable pub survivors : List ℕ → List ℕ → List (EntitySnapshot F) → List (EntitySnapshot F)
  survivors removed replaced [] = []
  survivors removed replaced (e ∷ es) =
      let rest = survivors removed replaced es in
      if not (contains e.id removed) && not (contains e.id replaced) then e ∷ rest else rest

  unfoldable pub apply_delta : WorldSnapshot F → DeltaSnapshot F → WorldSnapshot F
  apply_delta baseline d = record {
    tick = d.tick;
    viewer = d.viewer;
    origin = d.origin;
    complete = true;
    entities = survivors d.removed (ids d.changed) baseline.entities ++ d.changed;
  }

module _ (fl : Floats) where
  open fl use {F}

  -- New in the current tick, or different on the wire.
  unfoldable pub is_changed : List (ℕ × EntitySnapshot F) → EntitySnapshot F → Bool
  is_changed base e = elim (lookup e.id base) [ none ↦ true | some b ↦ not (same_on_wire fl b e) ]

  unfoldable pub changes :
      List (ℕ × EntitySnapshot F) → List (EntitySnapshot F) → List (EntitySnapshot F)
  changes base [] = []
  changes base (e ∷ es) = let rest = changes base es in if is_changed base e then e ∷ rest else rest

  unfoldable pub snapshot_diff : WorldSnapshot F → WorldSnapshot F → DeltaSnapshot F
  snapshot_diff baseline current = record {
    tick = current.tick;
    viewer = current.viewer;
    origin = current.origin;
    baseline_tick = baseline.tick;
    changed = changes (index_of baseline.entities []) current.entities;
    removed = absent (ids baseline.entities) (ids current.entities);
  }

  unfoldable pub write_snapshot_delta : DeltaSnapshot F → List ℕ → List ℕ
  write_snapshot_delta d w =
      let head =
        write_u32 d.viewer
          (write_u32 d.tick (write_u16 delta_version (write_u32 snapshot_magic w))) in
      let base = write_u32 d.baseline_tick (write_origin d.origin head) in
      let counts =
        write_u16 (length d.removed % 2 ^ 16) (write_u16 (length d.changed % 2 ^ 16) base) in
      write_ids d.removed (write_records fl d.changed d.origin counts)

  -- The header behind the magic and the version, with the two counts.
  unfoldable pub read_delta_header : Read (DeltaSnapshot F × ℕ × ℕ)
  read_delta_header = do
    tick ← read_u32
    viewer ← read_u32
    origin ← read_origin
    baseline_tick ← read_u32
    changed_count ← read_u16
    removed_count ← read_u16
    ret (
      record {
        tick = tick;
        viewer = viewer;
        origin = origin;
        baseline_tick = baseline_tick;
        changed = [];
        removed = [];
      },
      changed_count,
      removed_count,
    )

  unfoldable pub read_delta_lists : DeltaSnapshot F × ℕ × ℕ → Read (DeltaSnapshot F)
  read_delta_lists (d, changed_count, removed_count) = do
    changed ← read_records fl changed_count d.origin
    removed ← read_ids removed_count
    ret (record d { changed = changed; removed = removed })

  unfoldable pub read_snapshot_delta : Reader → Option (DeltaSnapshot F)
  read_snapshot_delta r =
      let (magic, r₁) = read_u32 r in
      let (version, r₂) = read_u16 r₁ in
      let (header, r₃) = read_delta_header r₂ in
      let (d, r₄) = read_delta_lists header r₃ in
      if not (magic == snapshot_magic)
      then none
      else if not (version == delta_version)
      then none
      else if not (ok r₃)
      then none
      else if ok r₄
      then some d
      else none
