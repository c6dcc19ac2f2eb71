-- ===== src/Snapshot/World.antt =====
-- NeuronCore/Replication.h: the entity snapshot and its wire records.
-- Positions are exact integers; the record on the wire is relative to a reference point.
pub mod RoundTrip
pub mod Packet
use deepspace_outpost_dx.Base.{
  ltb, ◌==◌, if◌then◌else◌, length, get_or, ℕ, zero, suc, ◌+◌, ◌-◌, ◌*◌, ◌%◌, ◌^◌, Bool, not,
  Option, none, some, List, [], ◌∷◌,
}
use deepspace_outpost_dx.Base.Int.{ℤ, pos, negsuc, pos_part, ◌+ℤ◌, ◌-ℤ◌, ltb_ℤ, to_bits, of_bits}
use deepspace_outpost_dx.Wire.{
  write_u8, write_u16, write_u32, write_u64, Reader, Read, ◌>>=◌, ◌>>◌, ret, read_u8, read_u16,
  read_u32, read_u64, ok,
}
use deepspace_outpost_dx.Snapshot.Quantize.{
  Floats, quantize_unit, dequantize_unit, quantize_speed, dequantize_speed,
}

abbrev pub snapshot_magic : ℕ
snapshot_magic = 0x4E534E50

abbrev pub snapshot_version : ℕ
snapshot_version = 2

unfoldable pub peek_magic : List ℕ → ℕ
peek_magic bytes =
    if ltb (length bytes) 4
    then 0
    else get_or bytes 0 0
      + get_or bytes 1 0 * 2 ^ 8
      + get_or bytes 2 0 * 2 ^ 16
      + get_or bytes 3 0 * 2 ^ 24

abbrev pub snapshot_header_size : ℕ
snapshot_header_size = 4 + 2 + 4 + 4 + 8 * 3 + 1 + 2

abbrev pub snapshot_entity_size : ℕ
snapshot_entity_size = 4 + 4 * 3 + 2 * 6 + 2 + 2

pub record EntitySnapshot (F : Type 0) : Type 0 where
  pub id : ℕ
  pub x : ℤ
  pub y : ℤ
  pub z : ℤ
  pub nose_x : F
  pub nose_y : F
  pub nose_z : F
  pub roof_x : F
  pub roof_y : F
  pub roof_z : F
  pub speed : F
  pub type : ℤ

-- A reference point.
pub record Origin : Type 0 where
  pub ref_x : ℤ
  pub ref_y : ℤ
  pub ref_z : ℤ

abbrev pub any_viewer : ℕ
any_viewer = 0xFFFFFFFF

pub record WorldSnapshot (F : Type 0) : Type 0 where
  pub tick : ℕ
  pub viewer : ℕ
  pub origin : Origin
  pub complete : Bool
  pub entities : List (EntitySnapshot F)

unfoldable pub offset_to_i32 : ℤ → ℤ
offset_to_i32 v =
    if ltb_ℤ v (negsuc (2 ^ 31 - 1))
    then negsuc (2 ^ 31 - 1)
    else if ltb_ℤ (pos (2 ^ 31 - 1)) v
    then pos (2 ^ 31 - 1)
    else v

-- DataWriter's WriteI32 and WriteI64, and DataReader's ReadI32 and ReadI64.
unfoldable pub write_i32 : ℤ → List ℕ → List ℕ
write_i32 v = write_u32 (to_bits 32 v)

unfoldable pub write_i64 : ℤ → List ℕ → List ℕ
write_i64 v = write_u64 (to_bits 64 v)

unfoldable pub read_i32 : Read ℤ
read_i32 = do bits ← read_u32; ret (of_bits 32 bits)

unfoldable pub read_i64 : Read ℤ
read_i64 = do bits ← read_u64; ret (of_bits 64 bits)

unfoldable pub write_origin : Origin → List ℕ → List ℕ
unfolding write_i64
write_origin o w = write_i64 o.ref_z (write_i64 o.ref_y (write_i64 o.ref_x w))

unfoldable pub read_origin : Read Origin
unfolding read_i64
read_origin = do
  x ← read_i64
  y ← read_i64
  z ← read_i64
  ret (record { ref_x = x; ref_y = y; ref_z = z })

module _ (fl : Floats) where
  open fl use {F}

  unfoldable pub write_unit : F → List ℕ → List ℕ
  write_unit f = write_u16 (to_bits 16 (quantize_unit fl f))

  unfoldable pub write_entity_record : EntitySnapshot F → Origin → List ℕ → List ℕ
  unfolding write_unit write_i32
  write_entity_record e o w =
      let head = write_i32 (offset_to_i32 (e.z -ℤ o.ref_z)) (
        write_i32 (offset_to_i32 (e.y -ℤ o.ref_y))
          (write_i32 (offset_to_i32 (e.x -ℤ o.ref_x)) (write_u32 e.id w))) in
      let nose = write_unit e.nose_z (write_unit e.nose_y (write_unit e.nose_x head)) in
      let roof = write_unit e.roof_z (write_unit e.roof_y (write_unit e.roof_x nose)) in
      write_u16 (to_bits 16 e.type) (write_u16 (pos_part (quantize_speed fl e.speed)) roof)

  unfoldable pub read_unit : Read F
  read_unit = do bits ← read_u16; ret (dequantize_unit fl (of_bits 16 bits))

  unfoldable pub read_entity_record : Origin → Read (EntitySnapshot F)
  read_entity_record o = do
    id ← read_u32
    x ← read_i32
    y ← read_i32
    z ← read_i32
    nose_x ← read_unit
    nose_y ← read_unit
    nose_z ← read_unit
    roof_x ← read_unit
    roof_y ← read_unit
    roof_z ← read_unit
    speed ← read_u16
    type ← read_u16
    ret (record {
      id = id;
      x = o.ref_x +ℤ x;
      y = o.ref_y +ℤ y;
      z = o.ref_z +ℤ z;
      nose_x = nose_x;
      nose_y = nose_y;
      nose_z = nose_z;
      roof_x = roof_x;
      roof_y = roof_y;
      roof_z = roof_z;
      speed = dequantize_speed fl (pos speed);
      type = of_bits 16 type;
    })

  unfoldable pub write_records : List (EntitySnapshot F) → Origin → List ℕ → List ℕ
  write_records [] o w = w
  write_records (e ∷ es) o w = write_records es o (write_entity_record e o w)

  unfoldable pub read_records : ℕ → Origin → Read (List (EntitySnapshot F))
  read_records zero o = ret []
  read_records (suc n) o = do e ← read_entity_record o; es ← read_records n o; ret (e ∷ es)

  unfoldable pub write_snapshot : WorldSnapshot F → List ℕ → List ℕ
  write_snapshot s w =
      let head =
        write_u32 s.viewer
          (write_u32 s.tick (write_u16 snapshot_version (write_u32 snapshot_magic w))) in
      let flags = write_u8 (if s.complete then 1 else 0) (write_origin s.origin head) in
      write_records s.entities s.origin (write_u16 (length s.entities % 2 ^ 16) flags)

  -- What follows the magic and the version.
  unfoldable pub read_snapshot_body : Read (WorldSnapshot F)
  read_snapshot_body = do
    tick ← read_u32
    viewer ← read_u32
    origin ← read_origin
    complete ← read_u8
    count ← read_u16
    entities ← read_records count origin
    ret (record {
      tick = tick;
      viewer = viewer;
      origin = origin;
      complete = not (complete == 0);
      entities = entities;
    })

  -- `none` is the answer false, which leaves the out parameter unspecified.
  unfoldable pub read_snapshot : Reader → Option (WorldSnapshot F)
  read_snapshot r =
      let (magic, r₁) = read_u32 r in
      let (version, r₂) = read_u16 r₁ in
      let (s, r₃) = read_snapshot_body r₂ in
      if not (magic == snapshot_magic)
      then none
      else if not (version == snapshot_version)
      then none
      else if ok r₃
      then some s
      else none
