-- ===== src/Messages/RoundTrip.antt =====
-- A message read back from its bytes is the message that was written.
use deepspace_outpost_dx.Base.{
  ltb, length, All, ℕ, ◌^◌, ◌≤◌, ◌<◌, ◌≡◌, refl, sym, ap, ◌∙◌, true, false, Option, none, some,
  List, [], ◌∷◌, ◌++◌, append_assoc, append-nil, arith,
}
use deepspace_outpost_dx.Base.Int.{
  ℤ, to_bits, of_bits, of_bits-to_bits_32, of_bits-to_bits_64, to_bits-lt,
}
use deepspace_outpost_dx.Wire.{Reader, reader, Read, read_u8, read_u16, read_u32, read_u64, ok}
use deepspace_outpost_dx.Wire.RoundTrip.{
  bytes_u16, bytes_u32, read_u16_lem, read_u32_lem, read_u64_lem,
}
use deepspace_outpost_dx.Messages.{
  max_string_len, max_vector_elements, Field, u8, u16, u32, u64, i32, i64, f32, f64, boolean,
  entity_id, text, no_fields, optional, vector, both, Value, ReadsTo, checked, itself, and_then,
  cons_some, read_each, read_counted, read_some, read_field, encode, decode,
}
use deepspace_outpost_dx.Messages.Bytes.{AllSome, Fits, codes, some_code, code, write_field-code}

checked_lem :
    {V : Type 0} (read : Read ℕ) (value : ℕ → V) (r : Reader) (v : ℕ) (bs : List ℕ)
    → read r ≡ (v, reader bs false)
    → checked read value r ≡ (some (value v), reader bs false)
unfolding ok
checked_lem read value r v bs h = rw h refl

and_then_lem :
    {V W : Type 0} (read_v : ReadsTo V) (read_w : ReadsTo W) (r r' r'' : Reader) (x : V) (y : W)
    → read_v r ≡ (some x, r')
    → read_w r' ≡ (some y, r'')
    → and_then read_v read_w r ≡ (some (x, y), r'')
and_then_lem read_v read_w r r' r'' x y h k = rw (h, k) refl

-- A reader that undoes a code.
abbrev Undoes : {V : Type 0} → (V → Type 0) → ReadsTo V → (V → List ℕ) → Type 0
Undoes {V = V} P read code_of =
    (v : V) (bs : List ℕ) → P v → read (reader (code_of v ++ bs) false) ≡ (some v, reader bs false)

read_each_lem :
    {V : Type 0} (P : V → Type 0) (read : ReadsTo V) (code_of : V → List ℕ)
    → Undoes P read code_of
    → (vs : List V) (bs : List ℕ) → All P vs
    → read_each read (length vs) (reader (codes code_of vs ++ bs) false)
      ≡ (some vs, reader bs false)
read_each_lem P read code_of law [] bs h = refl
read_each_lem P read code_of law (v ∷ vs) bs h =
    rw (append_assoc (code_of v) (codes code_of vs) bs) (
      ap (λ x. (cons_some x.0, x.1))
        (and_then_lem read (read_each read (length vs)) _ _ _ v vs
          (law v (codes code_of vs ++ bs) h.0) (read_each_lem P read code_of law vs bs h.1)))

read_counted_lem :
    {V : Type 0} (P : V → Type 0) (read : ReadsTo V) (code_of : V → List ℕ) (most : ℕ)
    → Undoes P read code_of
    → (vs : List V) (bs : List ℕ) → most < 2 ^ 16
    → length vs ≤ most
    → All P vs
    → read_counted read most (reader ((bytes_u16 (length vs) ++ codes code_of vs) ++ bs) false)
      ≡ (some vs, reader bs false)
unfolding ok
read_counted_lem P read code_of most law vs bs small short h =
    let fits : ltb most (length vs) ≡ false = ground arith in
    rw
      (
        append_assoc (bytes_u16 (length vs)) (codes code_of vs) bs,
        read_u16_lem (length vs) (codes code_of vs ++ bs) false (omega arith),
        fits,
      )
      (read_each_lem P read code_of law vs bs h)

read_some_lem :
    {V : Type 0} (P : V → Type 0) (read : ReadsTo V) (code_of : V → List ℕ)
    → Undoes P read code_of
    → (v : Option V) (bs : List ℕ) → AllSome P v
    → read_some read (reader (some_code code_of v ++ bs) false) ≡ (some v, reader bs false)
unfolding read_u8 ok
read_some_lem P read code_of law none bs h = refl
read_some_lem P read code_of law (some v) bs h = rw (law v bs h) refl

codes_bytes : (cs : List ℕ) → codes (λ (c : ℕ). c ∷ []) cs ≡ cs
codes_bytes [] = refl
codes_bytes (c ∷ cs) = ap (λ (l : List ℕ). c ∷ l) (codes_bytes cs)

byte_undone : Undoes (λ c. c < 2 ^ 8) (checked read_u8 itself) (λ (c : ℕ). c ∷ [])
unfolding read_u8 ok
byte_undone v bs h = refl

read_field-code :
    (f : Field) (v : Value f) (bs : List ℕ)
    → Fits f v
    → read_field f (reader (code f v ++ bs) false) ≡ (some v, reader bs false)
unfolding read_field
read_field-code u8 v bs h = byte_undone v bs h
read_field-code u16 v bs h = checked_lem read_u16 itself _ v bs (read_u16_lem v bs false h)
read_field-code u32 v bs h = checked_lem read_u32 itself _ v bs (read_u32_lem v bs false h)
read_field-code u64 v bs h = checked_lem read_u64 itself _ v bs (read_u64_lem v bs false h)
read_field-code i32 v bs h =
    checked_lem read_u32 (of_bits 32) _ (to_bits 32 v) bs
      (read_u32_lem (to_bits 32 v) bs false (to_bits-lt v).1)
    ∙ ap (λ (n : ℤ). (some n, reader bs false)) (of_bits-to_bits_32 v h)
read_field-code i64 v bs h =
    checked_lem read_u64 (of_bits 64) _ (to_bits 64 v) bs
      (read_u64_lem (to_bits 64 v) bs false (to_bits-lt v).2)
    ∙ ap (λ (n : ℤ). (some n, reader bs false)) (of_bits-to_bits_64 v h)
read_field-code f32 v bs h = checked_lem read_u32 itself _ v bs (read_u32_lem v bs false h)
read_field-code f64 v bs h = checked_lem read_u64 itself _ v bs (read_u64_lem v bs false h)
read_field-code boolean true bs h = unfold read_u8 ok in refl
read_field-code boolean false bs h = unfold read_u8 ok in refl
read_field-code entity_id v bs h =
    rw
      (
        append_assoc (bytes_u32 v.index) (bytes_u32 v.generation) bs,
        read_u32_lem v.index (bytes_u32 v.generation ++ bs) false h.0,
        read_u32_lem v.generation bs false h.1,
      )
      (unfold ok in refl)
read_field-code text v bs h =
    ap
      (λ (cs : List ℕ).
        read_counted (checked read_u8 itself) max_string_len
          (reader ((bytes_u16 (length v) ++ cs) ++ bs) false))
      (sym (codes_bytes v))
    ∙ read_counted_lem (λ c. c < 2 ^ 8) (checked read_u8 itself) (λ (c : ℕ). c ∷ []) max_string_len
        byte_undone v bs (omega arith) h.0 h.1
read_field-code no_fields v bs h = refl
read_field-code (optional f) v bs h =
    read_some_lem (Fits f) (read_field f) (code f) (read_field-code f) v bs h
read_field-code (vector f) v bs h =
    read_counted_lem (Fits f) (read_field f) (code f) max_vector_elements (read_field-code f) v bs
      (omega arith) h.0 h.1
read_field-code (both f g) v bs h = rw (append_assoc (code f v.0) (code g v.1) bs) (
    and_then_lem (read_field f) (read_field g) _ _ _ v.0 v.1
      (read_field-code f v.0 (code g v.1 ++ bs) h.0) (read_field-code g v.1 bs h.1))

-- Of any list of fields, nested in any way, a message whose values fit its fields is decoded from
-- its encoding as it was.
pub decode-encode : (f : Field) (v : Value f) → Fits f v → decode f (encode f v) ≡ some v
unfolding decode encode ok
decode-encode f v h =
    rw (write_field-code f v [] h, sym (append-nil (code f v)), read_field-code f v [] h) refl
