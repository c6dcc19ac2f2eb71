-- ===== src/Snapshot/Packetizer/Cover.antt =====
-- The datagrams of a snapshot, for what they carry and how long they are.
use deepspace_outpost_dx.Base.{
  leb, length, All, drop, take, length-take, length-drop, take-append-drop, ℕ, zero, suc, ◌+◌, ◌*◌,
  ◌^◌, ◌≤◌, ◌<◌, ◌≡◌, refl, sym, ap, ap₂, subst, ◌∙◌, Bool, Option, none, some, List, [], ◌∷◌, ◌++◌,
  map, append-nil, arith,
}
use deepspace_outpost_dx.Wire.{open_reader}
use deepspace_outpost_dx.Snapshot.Quantize.{Floats}
use deepspace_outpost_dx.Snapshot.World.{
  EntitySnapshot, Origin, WorldSnapshot, write_snapshot, read_snapshot,
}
use deepspace_outpost_dx.Snapshot.World.RoundTrip.{as_sent, FitsEntity}
use deepspace_outpost_dx.Snapshot.World.Packet.{
  FitsOrigin, records_bytes, FitsWorld, write_snapshot_lem, read_snapshot-write_snapshot,
}
use deepspace_outpost_dx.Snapshot.Packetizer.{
  entities_per_datagram, pieces, keep_alive, part, parts, packetize_snapshot,
}

abbrev pub flatten {ℓ} : {A : Type ℓ} → List (List A) → List A
flatten [] = []
flatten (xs ∷ xss) = xs ++ flatten xss

flatten-pieces {ℓ} :
    {A : Type ℓ} (fuel per : ℕ) (es : List A)
    → 0 < per
    → length es ≤ fuel
    → flatten (pieces fuel per es) ≡ es
unfolding pieces
flatten-pieces zero per [] p h = refl
flatten-pieces zero per (e ∷ es) p h = absurd (omega arith)
flatten-pieces (suc fuel) per [] p h = refl
flatten-pieces (suc fuel) per (e ∷ es) p h =
    ap (λ l. take per (e ∷ es) ++ l)
      (flatten-pieces fuel per (drop per (e ∷ es)) p (omega (arith, length-drop per (e ∷ es))))
    ∙ take-append-drop per (e ∷ es)

per_pos : (max : ℕ) → 0 < entities_per_datagram max
unfolding entities_per_datagram
per_pos max = ground arith

per_fits : (max : ℕ) → 73 ≤ max → 41 + 32 * entities_per_datagram max ≤ max
unfolding entities_per_datagram
per_fits max h = ground arith

per_small : (max : ℕ) → max < 2 ^ 16 → entities_per_datagram max < 2 ^ 16
unfolding entities_per_datagram
per_small max h = ground arith

All-take {ℓ κ} : {A : Type ℓ} (P : A → Type κ) (n : ℕ) (xs : List A) → All P xs → All P (take n xs)
All-take P zero xs h = tt
All-take P (suc n) [] h = tt
All-take P (suc n) (x ∷ xs) h = (h.0, All-take P n xs h.1)

All-drop {ℓ κ} : {A : Type ℓ} (P : A → Type κ) (n : ℕ) (xs : List A) → All P xs → All P (drop n xs)
All-drop P zero xs h = h
All-drop P (suc n) [] h = tt
All-drop P (suc n) (x ∷ xs) h = All-drop P n xs h.1

pieces-All {ℓ κ} :
    {A : Type ℓ} (P : A → Type κ) (fuel per : ℕ) (es : List A)
    → All P es
    → All (λ p. All P p × (length p ≤ per)) (pieces fuel per es)
unfolding pieces
pieces-All P zero per es h = tt
pieces-All P (suc fuel) per [] h = tt
pieces-All P (suc fuel) per (e ∷ es) h = (
  (All-take P per (e ∷ es) h, omega (arith, length-take per (e ∷ es))),
  pieces-All P fuel per (drop per (e ∷ es)) (All-drop P per (e ∷ es) h),
)

module _ (fl : Floats) where
  open fl use {F}

  abbrev entities_of : Option (WorldSnapshot F) → List (EntitySnapshot F)
  entities_of none = []
  entities_of (some s) = s.entities

  -- The entities that a viewer reads from a datagram.
  abbrev pub read_entities : List ℕ → List (EntitySnapshot F)
  read_entities d = entities_of (read_snapshot fl (open_reader d))

  -- Tick, reference point and entities fit their widths.
  pub record FitsParts (s : WorldSnapshot F) : Type 0 where
    pub tick : s.tick < 2 ^ 32
    pub origin : FitsOrigin s.origin
    pub entities : All (FitsEntity fl) s.entities

  part-FitsWorld :
      (s : WorldSnapshot F) (b : Bool) (per : ℕ) (es : List (EntitySnapshot F))
      → FitsParts s
      → per < 2 ^ 16
      → All (FitsEntity fl) es
      → length es ≤ per
      → FitsWorld fl (part s b es)
  unfolding part
  part-FitsWorld s b per es f small h n = record {
    tick = f.tick;
    viewer = omega arith;
    origin = f.origin;
    count = omega arith;
    entities = h;
  }

  read_part :
      (s : WorldSnapshot F) (b : Bool) (es : List (EntitySnapshot F))
      → FitsWorld fl (part s b es)
      → read_entities (write_snapshot fl (part s b es) []) ≡ map (as_sent fl s.origin) es
  unfolding part
  read_part s b es f = ap entities_of (read_snapshot-write_snapshot fl (part s b es) f)

  map-append-as_sent :
      (o : Origin) (xs ys : List (EntitySnapshot F))
      → map (as_sent fl o) (xs ++ ys) ≡ map (as_sent fl o) xs ++ map (as_sent fl o) ys
  map-append-as_sent o [] ys = refl
  map-append-as_sent o (x ∷ xs) ys = ap (λ l. as_sent fl o x ∷ l) (map-append-as_sent o xs ys)

  abbrev datagrams : List (WorldSnapshot F) → List (List ℕ)
  datagrams ps = map (λ p. write_snapshot fl p []) ps

  read_parts :
      (s : WorldSnapshot F) (b : Bool) (per : ℕ) (ps : List (List (EntitySnapshot F)))
      → FitsParts s
      → per < 2 ^ 16
      → All (λ p. All (FitsEntity fl) p × (length p ≤ per)) ps
      → flatten (map read_entities (datagrams (map (part s b) ps)))
        ≡ map (as_sent fl s.origin) (flatten ps)
  read_parts s b per [] f small h = refl
  read_parts s b per (p ∷ ps) f small h =
      ap₂ (λ xs ys. xs ++ ys) (read_part s b p (part-FitsWorld s b per p f small h.0.0 h.0.1))
        (read_parts s b per ps f small h.1)
      ∙ sym (map-append-as_sent s.origin p (flatten ps))

  -- The parts are these pieces; an empty snapshot has one that is empty.
  abbrev split : ℕ → List (EntitySnapshot F) → List (List (EntitySnapshot F))
  split max [] = [] ∷ []
  split max (e ∷ es) = pieces (length (e ∷ es)) (entities_per_datagram max) (e ∷ es)

  parts_lem :
      (s : WorldSnapshot F) (max : ℕ)
      → parts max s
        ≡ map (part s (leb (length s.entities) (entities_per_datagram max))) (split max s.entities)
  unfolding parts keep_alive part
  parts_lem s max = go s.entities refl
    where
      go :
          (es : List (EntitySnapshot F))
          → s.entities ≡ es
          → parts max s
            ≡ map
                (part s (leb (length s.entities) (entities_per_datagram max)))
                (split max s.entities)
      go [] e = ground (arith, e)
      go (x ∷ xs) e = ground (arith, e)

  split-All :
      (s : WorldSnapshot F) (max : ℕ)
      → FitsParts s
      → All
          (λ p. All (FitsEntity fl) p × (length p ≤ entities_per_datagram max))
          (split max s.entities)
  split-All s max f = go s.entities f.entities
    where
      go :
          (es : List (EntitySnapshot F))
          → All (FitsEntity fl) es
          → All (λ p. All (FitsEntity fl) p × (length p ≤ entities_per_datagram max)) (split max es)
      go [] h = ((tt, omega arith), tt)
      go (x ∷ xs) h = pieces-All (FitsEntity fl) _ _ (x ∷ xs) h

  flatten-split : (max : ℕ) (es : List (EntitySnapshot F)) → flatten (split max es) ≡ es
  flatten-split max [] = refl
  flatten-split max (x ∷ xs) = flatten-pieces _ _ (x ∷ xs) (per_pos max) (omega arith)

  -- If tick, reference point and entities fit their widths and the payload is less than 65536
  -- bytes, the entities that a viewer reads from the datagrams of a snapshot, one datagram after
  -- the other, are those of the snapshot in its order, none lost and none twice, at the precision
  -- of the wire.
  pub packetize-covers :
      (s : WorldSnapshot F) (max : ℕ)
      → FitsParts s
      → max < 2 ^ 16
      → flatten (map read_entities (packetize_snapshot fl s max))
        ≡ map (as_sent fl s.origin) s.entities
  unfolding packetize_snapshot
  packetize-covers s max f h =
      let single = leb (length s.entities) (entities_per_datagram max) in
      ap (λ ps. flatten (map read_entities (datagrams ps))) (parts_lem s max)
      ∙ read_parts s single (entities_per_datagram max) (split max s.entities) f (per_small max h)
          (split-All s max f)
      ∙ ap (map (as_sent fl s.origin)) (flatten-split max s.entities)

  length-records_bytes :
      (o : Origin) (es : List (EntitySnapshot F))
      → length (records_bytes fl o es []) ≡ 32 * length es
  length-records_bytes o [] = omega arith
  length-records_bytes o (e ∷ es) = omega (arith, length-records_bytes o es)

  length-write_snapshot :
      (s : WorldSnapshot F)
      → FitsWorld fl s
      → length (write_snapshot fl s []) ≡ 41 + 32 * length s.entities
  length-write_snapshot s f =
      ap length (sym (append-nil (write_snapshot fl s [])) ∙ write_snapshot_lem fl s [] f)
      ∙ omega (arith, length-records_bytes s.origin s.entities)

  lengths :
      (s : WorldSnapshot F) (b : Bool) (max : ℕ) (ps : List (List (EntitySnapshot F)))
      → FitsParts s
      → 73 ≤ max
      → max < 2 ^ 16
      → All (λ p. All (FitsEntity fl) p × (length p ≤ entities_per_datagram max)) ps
      → All (λ d. length d ≤ max) (datagrams (map (part s b) ps))
  lengths s b max [] f lo hi h = tt
  lengths s b max (p ∷ ps) f lo hi h = (
    (let same : length (part s b p).entities ≡ length p = unfold part in refl in
        omega (
          arith,
          length-write_snapshot (part s b p)
              (part-FitsWorld s b _ p f (per_small max hi) h.0.0 h.0.1),
          same,
          per_fits max lo,
          h.0.1,
        )),
    lengths s b max ps f lo hi h.1,
  )

  -- If tick, reference point and entities fit their widths, every datagram of a snapshot stays
  -- within the payload it was given, for payloads from 73 to 65535 bytes.
  pub packetize-fits :
      (s : WorldSnapshot F) (max : ℕ)
      → FitsParts s
      → 73 ≤ max
      → max < 2 ^ 16
      → All (λ d. length d ≤ max) (packetize_snapshot fl s max)
  unfolding packetize_snapshot
  packetize-fits s max f lo hi =
      let single = leb (length s.entities) (entities_per_datagram max) in
      subst (λ ps. All (λ d. length d ≤ max) (datagrams ps)) (sym (parts_lem s max))
        (lengths s single max (split max s.entities) f lo hi (split-All s max f))
