-- ===== src/Messages.antt =====
-- NeuronCore/Messages/Serialize.h: the codec of a message from the list of its fields.
-- The overloads of `WriteField` and `ReadField` are one function each over a type of fields: the types
-- that they accept. A floating-point number is the pattern of its bits, which is what they copy.
pub mod Bytes
pub mod RoundTrip
pub mod Defs
pub mod Catalog
mod Tests
use deepspace_outpost_dx.Base.{
  ltb, ◌==◌, if◌then◌else◌, length, take, ℕ, zero, suc, min, Bool, not, Option, none, some, List,
  [], ◌∷◌,
}
use deepspace_outpost_dx.Base.Int.{ℤ, to_bits, of_bits}
use deepspace_outpost_dx.Wire.{
  write_u8, write_u16, write_u32, write_u64, write_bytes, Reader, open_reader, Read, read_u8,
  read_u16, read_u32, read_u64, ok,
}
use deepspace_outpost_dx.Ecs.Registry.{EntityId}

abbrev pub max_string_len : ℕ
max_string_len = 4096

abbrev pub max_vector_elements : ℕ
max_vector_elements = 4096

-- The fields of a message or a nested record are `both` of one and the rest, with `no_fields` last.
pub data Field : Type 0 where
  u8 u16 u32 u64 i32 i64 f32 f64 boolean entity_id text no_fields : Field
  optional : Field → Field
  vector : Field → Field
  both : Field → Field → Field

abbrev pub Value : Field → Type 0
Value u8 = ℕ
Value u16 = ℕ
Value u32 = ℕ
Value u64 = ℕ
Value i32 = ℤ
Value i64 = ℤ
Value f32 = ℕ
Value f64 = ℕ
Value boolean = Bool
Value entity_id = EntityId
Value text = List ℕ
Value no_fields = Unit {0}
Value (optional f) = Option (Value f)
Value (vector f) = List (Value f)
Value (both f g) = Value f × Value g

abbrev pub write_each : {V : Type 0} → (V → List ℕ → List ℕ) → List V → List ℕ → List ℕ
write_each write [] w = w
write_each write (v ∷ vs) w = write_each write vs (write v w)

abbrev pub write_some : {V : Type 0} → (V → List ℕ → List ℕ) → Option V → List ℕ → List ℕ
write_some write none w = write_u8 0 w
write_some write (some v) w = write v (write_u8 1 w)

unfoldable pub write_field : (f : Field) → Value f → List ℕ → List ℕ
write_field u8 v w = write_u8 v w
write_field u16 v w = write_u16 v w
write_field u32 v w = write_u32 v w
write_field u64 v w = write_u64 v w
write_field i32 v w = write_u32 (to_bits 32 v) w
write_field i64 v w = write_u64 (to_bits 64 v) w
write_field f32 v w = write_u32 v w
write_field f64 v w = write_u64 v w
write_field boolean v w = write_u8 (if v then 1 else 0) w
write_field entity_id v w = write_u32 v.generation (write_u32 v.index w)
write_field text v w =
    let n = min (length v) max_string_len in write_bytes (take n v) (write_u16 n w)
write_field no_fields v w = w
write_field (optional f) v w = write_some (write_field f) v w
write_field (vector f) v w =
    let n = min (length v) max_vector_elements in
    write_each (write_field f) (take n v) (write_u16 n w)
write_field (both f g) v w = write_field g v.1 (write_field f v.0 w)

-- A field that is read: none when `ReadField` returns false.
abbrev pub ReadsTo : Type 0 → Type 0
ReadsTo V = Read (Option V)

abbrev pub checked : {V : Type 0} → Read ℕ → (ℕ → V) → ReadsTo V
checked read value r = let (v, r') = read r in (if ok r' then some (value v) else none, r')

abbrev pub itself : ℕ → ℕ
itself v = v

abbrev pub pair_up :
    {V W : Type 0} → Reader → Reader → Option V → Option W → Option (V × W) × Reader
pair_up r' r'' none w = (none, r')
pair_up r' r'' (some x) none = (none, r'')
pair_up r' r'' (some x) (some y) = (some (x, y), r'')

-- One value, then those behind it.
abbrev pub and_then : {V W : Type 0} → ReadsTo V → ReadsTo W → ReadsTo (V × W)
and_then read_v read_w r = let (v, r') = read_v r in let (w, r'') = read_w r' in pair_up r' r'' v w

abbrev pub cons_some : {V : Type 0} → Option (V × List V) → Option (List V)
cons_some none = none
cons_some (some (v, vs)) = some (v ∷ vs)

abbrev pub read_each : {V : Type 0} → ReadsTo V → ℕ → ReadsTo (List V)
read_each read zero r = (some [], r)
read_each read (suc n) r = let (vs, r') = and_then read (read_each read n) r in (cons_some vs, r')

-- A count of at most so many, then as many values.
abbrev pub read_counted : {V : Type 0} → ReadsTo V → ℕ → ReadsTo (List V)
read_counted read most r =
    let (n, r') = read_u16 r in
    if not (ok r') then (none, r') else if ltb most n then (none, r') else read_each read n r'

abbrev pub some_some : {V : Type 0} → Option V → Option (Option V)
some_some none = none
some_some (some v) = some (some v)

abbrev pub read_some : {V : Type 0} → ReadsTo V → ReadsTo (Option V)
read_some read r =
    let (has, r') = read_u8 r in
    let (v, r'') = read r' in
    if not (ok r') then (none, r') else if has == 0 then (some none, r') else (some_some v, r'')

unfoldable pub read_field : (f : Field) → ReadsTo (Value f)
read_field u8 = checked read_u8 itself
read_field u16 = checked read_u16 itself
read_field u32 = checked read_u32 itself
read_field u64 = checked read_u64 itself
read_field i32 = checked read_u32 (of_bits 32)
read_field i64 = checked read_u64 (of_bits 64)
read_field f32 = checked read_u32 itself
read_field f64 = checked read_u64 itself
read_field boolean = checked read_u8 (λ v. not (v == 0))
read_field entity_id = λ r.
    (let (i, r₁) = read_u32 r in
      let (g, r₂) = read_u32 r₁ in
      (if ok r₂ then some (record { index = i; generation = g }) else none, r₂))
read_field text = read_counted (checked read_u8 itself) max_string_len
read_field no_fields = λ r. (some tt, r)
read_field (optional f) = read_some (read_field f)
read_field (vector f) = read_counted (read_field f) max_vector_elements
read_field (both f g) = and_then (read_field f) (read_field g)

unfoldable pub encode : (f : Field) → Value f → List ℕ
encode f v = write_field f v []

unfoldable pub decode : (f : Field) → List ℕ → Option (Value f)
decode f bytes = let (v, r) = read_field f (open_reader bytes) in if ok r then v else none
