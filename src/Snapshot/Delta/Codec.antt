-- ===== src/Snapshot/Delta/Codec.antt =====
-- The bytes of a delta packet, from WriteSnapshotDelta to ReadSnapshotDelta.
use deepspace_outpost_dx.Base.{
  length, All, ℕ, ◌%◌, ◌^◌, ◌<◌, ◌≡◌, refl, sym, ◌∙◌, false, some, List, [], ◌∷◌, ◌++◌, map,
  append-nil, arith,
}
use deepspace_outpost_dx.Wire.{write_u32, reader, open_reader, ok}
use deepspace_outpost_dx.Wire.RoundTrip.{bytes_u16, bytes_u32, writes, read_u16_lem, read_u32_lem}
use deepspace_outpost_dx.Snapshot.Quantize.{Floats}
use deepspace_outpost_dx.Snapshot.World.{snapshot_magic}
use deepspace_outpost_dx.Snapshot.World.RoundTrip.{as_sent, FitsEntity}
use deepspace_outpost_dx.Snapshot.World.Packet.{
  FitsOrigin, origin_bytes, write_origin_lem, read_origin_lem, records_bytes, write_records_lem,
  read_records_lem,
}
use deepspace_outpost_dx.Snapshot.Delta.{
  delta_version, DeltaSnapshot, write_ids, read_ids, write_snapshot_delta, read_delta_header,
  read_delta_lists, read_snapshot_delta,
}

abbrev IsId : ℕ → Type 0
IsId k = k < 2 ^ 32

abbrev ids_bytes : List ℕ → List ℕ → List ℕ
ids_bytes [] bs = bs
ids_bytes (k ∷ ks) bs = bytes_u32 k ++ ids_bytes ks bs

write_ids_lem : (ks w bs : List ℕ) → write_ids ks w ++ bs ≡ w ++ ids_bytes ks bs
unfolding write_ids
write_ids_lem [] w bs = refl
write_ids_lem (k ∷ ks) w bs = write_ids_lem ks (write_u32 k w) bs ∙ simp writes

read_ids_lem :
    (ks bs : List ℕ)
    → All IsId ks
    → read_ids (length ks) (reader (ids_bytes ks bs) false) ≡ (ks, reader bs false)
unfolding read_ids
read_ids_lem [] bs h = refl
read_ids_lem (k ∷ ks) bs h = rw (read_u32_lem k (ids_bytes ks bs) false h.0, read_ids_lem ks bs h.1)

module _ (fl : Floats) where
  open fl use {F}

  pub record FitsDelta (d : DeltaSnapshot F) : Type 0 where
    pub tick : d.tick < 2 ^ 32
    pub viewer : d.viewer < 2 ^ 32
    pub origin : FitsOrigin d.origin
    pub baseline : d.baseline_tick < 2 ^ 32
    pub changed_count : length d.changed < 2 ^ 16
    pub removed_count : length d.removed < 2 ^ 16
    pub changed : All (FitsEntity fl) d.changed
    pub removed : All IsId d.removed

  abbrev pub lists_bytes : DeltaSnapshot F → List ℕ
  lists_bytes d = records_bytes fl d.origin d.changed (ids_bytes d.removed [])

  abbrev pub counts_bytes : DeltaSnapshot F → List ℕ
  counts_bytes d = bytes_u16 (length d.changed) ++ (bytes_u16 (length d.removed) ++ lists_bytes d)

  -- The packet behind its magic and version.
  abbrev pub body_bytes : DeltaSnapshot F → List ℕ
  body_bytes d =
      bytes_u32 d.tick
      ++ (bytes_u32 d.viewer ++ origin_bytes d.origin (bytes_u32 d.baseline_tick ++ counts_bytes d))

  pub write_snapshot_delta_lem :
      (d : DeltaSnapshot F)
      → FitsDelta d
      → write_snapshot_delta fl d [] ++ []
        ≡ bytes_u32 snapshot_magic ++ (bytes_u16 delta_version ++ body_bytes d)
  unfolding write_snapshot_delta
  write_snapshot_delta_lem d h =
      let n = h.changed_count in
      let m = h.removed_count in
      let small_changed : length d.changed % 2 ^ 16 ≡ length d.changed = omega arith in
      let small_removed : length d.removed % 2 ^ 16 ≡ length d.removed = omega arith in
      write_ids_lem d.removed _ []
      ∙ write_records_lem fl d.changed d.origin _ (ids_bytes d.removed [])
      ∙ rw (small_changed, small_removed) (simp (writes, write_origin_lem))

  -- What the header yields: the packet without its lists.
  abbrev bare : DeltaSnapshot F → DeltaSnapshot F
  bare d = record d { changed = []; removed = [] }

  read_delta_header_lem :
      (d : DeltaSnapshot F)
      → FitsDelta d
      → read_delta_header fl (reader (body_bytes d) false)
        ≡ ((bare d, length d.changed, length d.removed), reader (lists_bytes d) false)
  unfolding read_delta_header
  read_delta_header_lem d h = rw (
    read_u32_lem d.tick
        (bytes_u32 d.viewer ++ origin_bytes d.origin (bytes_u32 d.baseline_tick ++ counts_bytes d))
        false h.tick,
    read_u32_lem d.viewer (origin_bytes d.origin (bytes_u32 d.baseline_tick ++ counts_bytes d))
        false h.viewer,
    read_origin_lem d.origin (bytes_u32 d.baseline_tick ++ counts_bytes d) h.origin,
    read_u32_lem d.baseline_tick (counts_bytes d) false h.baseline,
    read_u16_lem (length d.changed) (bytes_u16 (length d.removed) ++ lists_bytes d) false
        h.changed_count,
    read_u16_lem (length d.removed) (lists_bytes d) false h.removed_count,
  )

  -- The delta as a viewer decodes it.
  abbrev pub delta_as_sent : DeltaSnapshot F → DeltaSnapshot F
  delta_as_sent d = record d { changed = map (as_sent fl d.origin) d.changed }

  read_delta_lists_lem :
      (d : DeltaSnapshot F)
      → FitsDelta d
      → read_delta_lists fl
          (bare d, length d.changed, length d.removed)
          (reader (lists_bytes d) false)
        ≡ (delta_as_sent d, reader [] false)
  unfolding read_delta_lists
  read_delta_lists_lem d h = rw (
    read_records_lem fl d.changed d.origin (ids_bytes d.removed []) h.changed,
    read_ids_lem d.removed [] h.removed,
  )

  -- A viewer reads the delta that the server wrote, if its fields fit their widths and each of
  -- its lists has fewer than 65536 entries: tick, viewer, reference point, baseline tick and
  -- removed ids as they were, and every changed entity in its order, at the precision of the
  -- wire.
  pub read_snapshot_delta-write_snapshot_delta :
      (d : DeltaSnapshot F)
      → FitsDelta d
      → read_snapshot_delta fl (open_reader (write_snapshot_delta fl d [])) ≡ some (delta_as_sent d)
  unfolding read_snapshot_delta ok
  read_snapshot_delta-write_snapshot_delta d h =
      rw (sym (append-nil (write_snapshot_delta fl d [])) ∙ write_snapshot_delta_lem d h) (
        rw (
          read_u32_lem snapshot_magic (bytes_u16 delta_version ++ body_bytes d) false (omega arith),
          read_u16_lem delta_version (body_bytes d) false (omega arith),
          read_delta_header_lem d h,
          read_delta_lists_lem d h,
        ))
