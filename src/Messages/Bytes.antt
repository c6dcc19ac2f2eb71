-- ===== src/Messages/Bytes.antt =====
-- The bytes of values that fit their fields.
use deepspace_outpost_dx.Base.{
  if◌then◌else◌, length, All, take, ℕ, ◌^◌, ◌≤◌, ◌<◌, min, ◌≡◌, refl, sym, ap, ap₂, ◌∙◌, Bool,
  Option, none, some, List, [], ◌∷◌, ◌++◌, append_assoc, append-nil, arith,
}
use deepspace_outpost_dx.Base.Int.{to_bits, IsInt}
use deepspace_outpost_dx.Wire.{write_u8, write_u16, write_bytes}
use deepspace_outpost_dx.Wire.RoundTrip.{
  bytes_u16, bytes_u32, bytes_u64, write_u16_lem, write_u32_lem, write_u64_lem, writes,
}
use deepspace_outpost_dx.Messages.{
  max_string_len, max_vector_elements, Field, u8, u16, u32, u64, i32, i64, f32, f64, boolean,
  entity_id, text, no_fields, optional, vector, both, Value, write_each, write_some, write_field,
}

abbrev pub AllSome : {V : Type 0} → (V → Type 0) → Option V → Type 0
AllSome P none = Unit {0}
AllSome P (some v) = P v

-- A value fits its field: a number its width, a text and a vector the cap of their length.
abbrev pub Fits : (f : Field) → Value f → Type 0
Fits u8 v = v < 2 ^ 8
Fits u16 v = v < 2 ^ 16
Fits u32 v = v < 2 ^ 32
Fits u64 v = v < 2 ^ 64
Fits i32 v = IsInt 32 v
Fits i64 v = IsInt 64 v
Fits f32 v = v < 2 ^ 32
Fits f64 v = v < 2 ^ 64
Fits boolean v = Unit {0}
Fits entity_id v = (v.index < 2 ^ 32) × (v.generation < 2 ^ 32)
Fits text v = (length v ≤ max_string_len) × All (λ c. c < 2 ^ 8) v
Fits no_fields v = Unit {0}
Fits (optional f) v = AllSome (Fits f) v
Fits (vector f) v = (length v ≤ max_vector_elements) × All (Fits f) v
Fits (both f g) v = Fits f v.0 × Fits g v.1

abbrev pub codes : {V : Type 0} → (V → List ℕ) → List V → List ℕ
codes code [] = []
codes code (v ∷ vs) = code v ++ codes code vs

abbrev pub some_code : {V : Type 0} → (V → List ℕ) → Option V → List ℕ
some_code code none = 0 ∷ []
some_code code (some v) = 1 ∷ code v

abbrev pub bool_code : Bool → List ℕ
bool_code b = (if b then 1 else 0) ∷ []

-- The bytes of a value that fits.
abbrev pub code : (f : Field) → Value f → List ℕ
code u8 v = v ∷ []
code u16 v = bytes_u16 v
code u32 v = bytes_u32 v
code u64 v = bytes_u64 v
code i32 v = bytes_u32 (to_bits 32 v)
code i64 v = bytes_u64 (to_bits 64 v)
code f32 v = bytes_u32 v
code f64 v = bytes_u64 v
code boolean v = bool_code v
code entity_id v = bytes_u32 v.index ++ bytes_u32 v.generation
code text v = bytes_u16 (length v) ++ v
code no_fields v = []
code (optional f) v = some_code (code f) v
code (vector f) v = bytes_u16 (length v) ++ codes (code f) v
code (both f g) v = code f v.0 ++ code g v.1

take_all :
    {V : Type 0} (vs : List V) (most : ℕ) → length vs ≤ most → take (min (length vs) most) vs ≡ vs
take_all {V = V} vs most h =
    let short : min (length vs) most ≡ length vs = omega arith in
    ap (λ (n : ℕ). take n vs) short ∙ whole vs
  where
    whole : (ws : List V) → take (length ws) ws ≡ ws
    whole [] = refl
    whole (w ∷ ws) = ap (λ (l : List V). w ∷ l) (whole ws)

write_each-codes :
    {V : Type 0} (write : V → List ℕ → List ℕ) (code_of : V → List ℕ) (P : V → Type 0)
    → ((v : V) (w : List ℕ) → P v → write v w ≡ w ++ code_of v)
    → (vs : List V) (w : List ℕ) → All P vs
    → write_each write vs w ≡ w ++ codes code_of vs
write_each-codes write code_of P law [] w h = sym (append-nil w)
write_each-codes write code_of P law (v ∷ vs) w h =
    ap (write_each write vs) (law v w h.0)
    ∙ write_each-codes write code_of P law vs (w ++ code_of v) h.1
    ∙ append_assoc w (code_of v) (codes code_of vs)

write_some_code :
    {V : Type 0} (write : V → List ℕ → List ℕ) (code_of : V → List ℕ) (P : V → Type 0)
    → ((v : V) (w : List ℕ) → P v → write v w ≡ w ++ code_of v)
    → (v : Option V) (w : List ℕ) → AllSome P v
    → write_some write v w ≡ w ++ some_code code_of v
write_some_code write code_of P law none w h = unfold write_u8 in refl
write_some_code write code_of P law (some v) w h =
    unfold write_u8 in (law v (w ++ 1 ∷ []) h ∙ append_assoc w (1 ∷ []) (code_of v))

pub write_field-code :
    (f : Field) (v : Value f) (w : List ℕ) → Fits f v → write_field f v w ≡ w ++ code f v
unfolding write_field
write_field-code u8 v w h = unfold write_u8 in refl
write_field-code u16 v w h = write_u16_lem v w
write_field-code u32 v w h = write_u32_lem v w
write_field-code u64 v w h = write_u64_lem v w
write_field-code i32 v w h = write_u32_lem (to_bits 32 v) w
write_field-code i64 v w h = write_u64_lem (to_bits 64 v) w
write_field-code f32 v w h = write_u32_lem v w
write_field-code f64 v w h = write_u64_lem v w
write_field-code boolean v w h = unfold write_u8 in refl
write_field-code entity_id v w h = simp writes
write_field-code text v w h =
    (let short : min (length v) max_string_len ≡ length v = omega (arith, h.0) in
      ap₂ (λ (cs : List ℕ) (n : ℕ). write_bytes cs (write_u16 n w)) (take_all v max_string_len h.0)
        short
      ∙ simp writes)
write_field-code no_fields v w h = sym (append-nil w)
write_field-code (optional f) v w h =
    write_some_code (write_field f) (code f) (Fits f) (write_field-code f) v w h
write_field-code (vector f) v w h =
    (let short : min (length v) max_vector_elements ≡ length v = omega (arith, h.0) in
      ap₂ (λ (vs : List (Value f)) (n : ℕ). write_each (write_field f) vs (write_u16 n w))
        (take_all v max_vector_elements h.0) short
      ∙ write_each-codes (write_field f) (code f) (Fits f) (write_field-code f) v
          (write_u16 (length v) w) h.1
      ∙ simp writes)
write_field-code (both f g) v w h =
    ap (write_field g v.1) (write_field-code f v.0 w h.0)
    ∙ write_field-code g v.1 (w ++ code f v.0) h.1
    ∙ append_assoc w (code f v.0) (code g v.1)
