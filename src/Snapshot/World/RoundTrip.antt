-- ===== src/Snapshot/World/RoundTrip.antt =====
-- The bytes of an entity record, from WriteEntityRecord to ReadEntityRecord.
use deepspace_outpost_dx.Base.{ℕ, ◌^◌, ◌<◌, ◌≡◌, false, List, ◌++◌, arith}
use deepspace_outpost_dx.Base.Int.{
  ℤ, pos, pos_part, ◌+ℤ◌, ◌-ℤ◌, ◌≤ℤ◌, to_bits, IsInt, of_bits-to_bits_16, of_bits-to_bits_32,
  to_bits-lt, IsInt-16, pos-pos_part,
}
use deepspace_outpost_dx.Wire.{reader, read_u16}
use deepspace_outpost_dx.Wire.RoundTrip.{bytes_u16, bytes_u32, writes, read_u16_lem, read_u32_lem}
use deepspace_outpost_dx.Snapshot.Quantize.{
  Floats, quantize_unit, dequantize_unit, quantize_speed, dequantize_speed, quantize_range,
}
use deepspace_outpost_dx.Snapshot.World.{
  EntitySnapshot, Origin, offset_to_i32, read_i32, write_entity_record, read_unit,
  read_entity_record,
}

offset_fits : (v : ℤ) → IsInt 32 (offset_to_i32 v)
unfolding offset_to_i32
offset_fits v = ground arith

pub offset_exact : (v : ℤ) → IsInt 32 v → offset_to_i32 v ≡ v
unfolding offset_to_i32
offset_exact v h = ground arith

u16_speed : (a : ℤ) → a ≤ℤ pos 65535 → pos_part a < 2 ^ 16
u16_speed a h = ground arith

module _ (fl : Floats) where
  open fl use {F}

  -- A component, a speed and a coordinate as they come out at the other end.
  abbrev pub sent_unit : F → F
  sent_unit f = dequantize_unit fl (quantize_unit fl f)

  abbrev pub sent_speed : F → F
  sent_speed f = dequantize_speed fl (quantize_speed fl f)

  abbrev pub sent_at : ℤ → ℤ → ℤ
  sent_at ref v = ref +ℤ offset_to_i32 (v -ℤ ref)

  abbrev pub as_sent : Origin → EntitySnapshot F → EntitySnapshot F
  as_sent o e = record e {
    x = sent_at o.ref_x e.x;
    y = sent_at o.ref_y e.y;
    z = sent_at o.ref_z e.z;
    nose_x = sent_unit e.nose_x;
    nose_y = sent_unit e.nose_y;
    nose_z = sent_unit e.nose_z;
    roof_x = sent_unit e.roof_x;
    roof_y = sent_unit e.roof_y;
    roof_z = sent_unit e.roof_z;
    speed = sent_speed e.speed;
  }

  abbrev pub FitsEntity : EntitySnapshot F → Type 0
  FitsEntity e = (e.id < 2 ^ 32) × IsInt 16 e.type

  abbrev unit_bytes : F → List ℕ
  unit_bytes f = bytes_u16 (to_bits 16 (quantize_unit fl f))

  abbrev offset_bytes : ℤ → ℤ → List ℕ
  offset_bytes ref v = bytes_u32 (to_bits 32 (offset_to_i32 (v -ℤ ref)))

  abbrev tail_bytes : EntitySnapshot F → List ℕ → List ℕ
  tail_bytes e bs =
      bytes_u16 (pos_part (quantize_speed fl e.speed)) ++ (bytes_u16 (to_bits 16 e.type) ++ bs)

  abbrev roof_bytes : EntitySnapshot F → List ℕ → List ℕ
  roof_bytes e bs =
      unit_bytes e.roof_x ++ (unit_bytes e.roof_y ++ (unit_bytes e.roof_z ++ tail_bytes e bs))

  abbrev nose_bytes : EntitySnapshot F → List ℕ → List ℕ
  nose_bytes e bs =
      unit_bytes e.nose_x ++ (unit_bytes e.nose_y ++ (unit_bytes e.nose_z ++ roof_bytes e bs))

  -- The record with what follows it.
  abbrev pub entity_bytes : Origin → EntitySnapshot F → List ℕ → List ℕ
  entity_bytes o e bs =
      bytes_u32 e.id
      ++ (offset_bytes o.ref_x e.x
          ++ (offset_bytes o.ref_y e.y ++ (offset_bytes o.ref_z e.z ++ nose_bytes e bs)))

  pub write_entity_record_lem :
      (e : EntitySnapshot F) (o : Origin) (w bs : List ℕ)
      → write_entity_record fl e o w ++ bs ≡ w ++ entity_bytes o e bs
  unfolding write_entity_record
  write_entity_record_lem e o w bs = simp writes

  read_unit_lem :
      (f : F) (bs : List ℕ)
      → read_unit fl (reader (unit_bytes f ++ bs) false) ≡ (sent_unit f, reader bs false)
  unfolding read_unit
  read_unit_lem f bs =
      let q = quantize_range fl f in
      rw (
        read_u16_lem (to_bits 16 (quantize_unit fl f)) bs false (to_bits-lt (quantize_unit fl f)).0,
        of_bits-to_bits_16 (quantize_unit fl f) (IsInt-16 (quantize_unit fl f) q.0 q.1),
      )

  read_offset_lem :
      (ref v : ℤ) (bs : List ℕ)
      → read_i32 (reader (offset_bytes ref v ++ bs) false)
        ≡ (offset_to_i32 (v -ℤ ref), reader bs false)
  unfolding read_i32
  read_offset_lem ref v bs = rw (
    read_u32_lem (to_bits 32 (offset_to_i32 (v -ℤ ref))) bs false (to_bits-lt _).1,
    of_bits-to_bits_32 (offset_to_i32 (v -ℤ ref)) (offset_fits (v -ℤ ref)),
  )

  read_speed_lem :
      (f : F) (bs : List ℕ)
      → read_u16 (reader (bytes_u16 (pos_part (quantize_speed fl f)) ++ bs) false)
        ≡ (pos_part (quantize_speed fl f), reader bs false)
  read_speed_lem f bs =
      let q = quantize_range fl f in
      read_u16_lem (pos_part (quantize_speed fl f)) bs false (u16_speed (quantize_speed fl f) q.3)

  -- A viewer reads the entity that was written, its floats on their grid and its position within
  -- 2 ^ 31 of the reference point, and the bytes behind it are left.
  pub read_entity_record_lem :
      (e : EntitySnapshot F) (o : Origin) (bs : List ℕ)
      → FitsEntity e
      → read_entity_record fl o (reader (entity_bytes o e bs) false)
        ≡ (as_sent o e, reader bs false)
  unfolding read_entity_record
  read_entity_record_lem e o bs h = rw (
    read_u32_lem e.id
        (offset_bytes o.ref_x e.x
          ++ (offset_bytes o.ref_y e.y ++ (offset_bytes o.ref_z e.z ++ nose_bytes e bs)))
        false h.0,
    read_offset_lem o.ref_x e.x
        (offset_bytes o.ref_y e.y ++ (offset_bytes o.ref_z e.z ++ nose_bytes e bs)),
    read_offset_lem o.ref_y e.y (offset_bytes o.ref_z e.z ++ nose_bytes e bs),
    read_offset_lem o.ref_z e.z (nose_bytes e bs),
    read_unit_lem e.nose_x (unit_bytes e.nose_y ++ (unit_bytes e.nose_z ++ roof_bytes e bs)),
    read_unit_lem e.nose_y (unit_bytes e.nose_z ++ roof_bytes e bs),
    read_unit_lem e.nose_z (roof_bytes e bs),
    read_unit_lem e.roof_x (unit_bytes e.roof_y ++ (unit_bytes e.roof_z ++ tail_bytes e bs)),
    read_unit_lem e.roof_y (unit_bytes e.roof_z ++ tail_bytes e bs),
    read_unit_lem e.roof_z (tail_bytes e bs),
    read_speed_lem e.speed (bytes_u16 (to_bits 16 e.type) ++ bs),
    read_u16_lem (to_bits 16 e.type) bs false (to_bits-lt e.type).0,
    of_bits-to_bits_16 e.type h.1,
    pos-pos_part (quantize_speed fl e.speed) (quantize_range fl e.speed).2,
  )
