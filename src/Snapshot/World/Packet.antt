-- ===== src/Snapshot/World/Packet.antt =====
-- The bytes of a full snapshot, from WriteSnapshot to ReadSnapshot.
use deepspace_outpost_dx.Base.{
  ◌==◌, if◌then◌else◌, length, All, ℕ, ◌%◌, ◌^◌, ◌<◌, ◌≡◌, refl, sym, ◌∙◌, Bool, true, false, not,
  some, List, [], ◌∷◌, ◌++◌, map, append-nil, arith,
}
use deepspace_outpost_dx.Base.Int.{to_bits, IsInt, of_bits-to_bits_64, to_bits-lt}
use deepspace_outpost_dx.Wire.{write_u8, reader, open_reader, read_u8, ok}
use deepspace_outpost_dx.Wire.RoundTrip.{
  bytes_u16, bytes_u32, bytes_u64, writes, read_u16_lem, read_u32_lem, read_u64_lem,
}
use deepspace_outpost_dx.Snapshot.Quantize.{Floats}
use deepspace_outpost_dx.Snapshot.World.{
  snapshot_magic, snapshot_version, EntitySnapshot, Origin, WorldSnapshot, write_origin,
  read_origin, write_entity_record, write_records, read_records, write_snapshot, read_snapshot_body,
  read_snapshot,
}
use deepspace_outpost_dx.Snapshot.World.RoundTrip.{
  as_sent, FitsEntity, entity_bytes, write_entity_record_lem, read_entity_record_lem,
}

abbrev pub FitsOrigin : Origin → Type 0
FitsOrigin o = IsInt 64 o.ref_x × IsInt 64 o.ref_y × IsInt 64 o.ref_z

abbrev pub origin_bytes : Origin → List ℕ → List ℕ
origin_bytes o bs =
    bytes_u64 (to_bits 64 o.ref_x)
    ++ (bytes_u64 (to_bits 64 o.ref_y) ++ (bytes_u64 (to_bits 64 o.ref_z) ++ bs))

pub write_origin_lem :
    (o : Origin) (w bs : List ℕ) → write_origin o w ++ bs ≡ w ++ origin_bytes o bs
unfolding write_origin
write_origin_lem o w bs = simp writes

pub read_origin_lem :
    (o : Origin) (bs : List ℕ)
    → FitsOrigin o
    → read_origin (reader (origin_bytes o bs) false) ≡ (o, reader bs false)
unfolding read_origin
read_origin_lem o bs h = rw (
  read_u64_lem (to_bits 64 o.ref_x)
      (bytes_u64 (to_bits 64 o.ref_y) ++ (bytes_u64 (to_bits 64 o.ref_z) ++ bs)) false
      (to_bits-lt o.ref_x).2,
  read_u64_lem (to_bits 64 o.ref_y) (bytes_u64 (to_bits 64 o.ref_z) ++ bs) false
      (to_bits-lt o.ref_y).2,
  read_u64_lem (to_bits 64 o.ref_z) bs false (to_bits-lt o.ref_z).2,
  of_bits-to_bits_64 o.ref_x h.0,
  of_bits-to_bits_64 o.ref_y h.1,
  of_bits-to_bits_64 o.ref_z h.2,
)

flag_back : (b : Bool) → not ((if b then 1 else 0) == 0) ≡ b
flag_back true = refl
flag_back false = refl

module _ (fl : Floats) where
  open fl use {F}

  abbrev pub records_bytes : Origin → List (EntitySnapshot F) → List ℕ → List ℕ
  records_bytes o [] bs = bs
  records_bytes o (e ∷ es) bs = entity_bytes fl o e (records_bytes o es bs)

  pub write_records_lem :
      (es : List (EntitySnapshot F)) (o : Origin) (w bs : List ℕ)
      → write_records fl es o w ++ bs ≡ w ++ records_bytes o es bs
  unfolding write_records
  write_records_lem [] o w bs = refl
  write_records_lem (e ∷ es) o w bs =
      write_records_lem es o (write_entity_record fl e o w) bs
      ∙ write_entity_record_lem fl e o w (records_bytes o es bs)

  pub read_records_lem :
      (es : List (EntitySnapshot F)) (o : Origin) (bs : List ℕ)
      → All (FitsEntity fl) es
      → read_records fl (length es) o (reader (records_bytes o es bs) false)
        ≡ (map (as_sent fl o) es, reader bs false)
  unfolding read_records
  read_records_lem [] o bs h = refl
  read_records_lem (e ∷ es) o bs h =
      rw (read_entity_record_lem fl e o (records_bytes o es bs) h.0, read_records_lem es o bs h.1)

  pub record FitsWorld (s : WorldSnapshot F) : Type 0 where
    pub tick : s.tick < 2 ^ 32
    pub viewer : s.viewer < 2 ^ 32
    pub origin : FitsOrigin s.origin
    pub count : length s.entities < 2 ^ 16
    pub entities : All (FitsEntity fl) s.entities

  abbrev flag : Bool → ℕ
  flag b = if b then 1 else 0

  -- The packet behind its magic and version.
  abbrev body_bytes : WorldSnapshot F → List ℕ → List ℕ
  body_bytes s bs =
      bytes_u32 s.tick
      ++ (bytes_u32 s.viewer
          ++ origin_bytes s.origin (
              flag s.complete
              ∷ (bytes_u16 (length s.entities) ++ records_bytes s.origin s.entities bs)))

  pub write_snapshot_lem :
      (s : WorldSnapshot F) (bs : List ℕ)
      → FitsWorld s
      → write_snapshot fl s [] ++ bs
        ≡ bytes_u32 snapshot_magic ++ (bytes_u16 snapshot_version ++ body_bytes s bs)
  unfolding write_snapshot write_u8
  write_snapshot_lem s bs h =
      let n = h.count in
      let small : length s.entities % 2 ^ 16 ≡ length s.entities = omega arith in
      write_records_lem s.entities s.origin _ bs ∙ rw small (simp (writes, write_origin_lem))

  read_snapshot_body_lem :
      (s : WorldSnapshot F) (bs : List ℕ)
      → FitsWorld s
      → read_snapshot_body fl (reader (body_bytes s bs) false)
        ≡ (record s { entities = map (as_sent fl s.origin) s.entities }, reader bs false)
  unfolding read_snapshot_body read_u8
  read_snapshot_body_lem s bs h = rw (
    read_u32_lem s.tick
        (bytes_u32 s.viewer
          ++ origin_bytes s.origin (
              flag s.complete
              ∷ (bytes_u16 (length s.entities) ++ records_bytes s.origin s.entities bs)))
        false h.tick,
    read_u32_lem s.viewer
        (origin_bytes s.origin (
          flag s.complete
          ∷ (bytes_u16 (length s.entities) ++ records_bytes s.origin s.entities bs)))
        false h.viewer,
    read_origin_lem s.origin
        (flag s.complete ∷ (bytes_u16 (length s.entities) ++ records_bytes s.origin s.entities bs))
        h.origin,
    read_u16_lem (length s.entities) (records_bytes s.origin s.entities bs) false h.count,
    read_records_lem s.entities s.origin bs h.entities,
    flag_back s.complete,
  )

  -- A viewer reads the snapshot that the server wrote, if its fields fit their widths and it has
  -- fewer than 65536 entities: tick, viewer, reference point and flag as they were, and every
  -- entity in its order, at the precision of the wire.
  pub read_snapshot-write_snapshot :
      (s : WorldSnapshot F)
      → FitsWorld s
      → read_snapshot fl (open_reader (write_snapshot fl s []))
        ≡ some (record s { entities = map (as_sent fl s.origin) s.entities })
  unfolding read_snapshot ok
  read_snapshot-write_snapshot s h =
      let whole = sym (append-nil (write_snapshot fl s [])) ∙ write_snapshot_lem s [] h in
      rw whole (
        rw (
          read_u32_lem snapshot_magic (bytes_u16 snapshot_version ++ body_bytes s []) false
              (omega arith),
          read_u16_lem snapshot_version (body_bytes s []) false (omega arith),
          read_snapshot_body_lem s [] h,
        ))
