-- ===== src/Wire/Bounds.antt =====
-- Reads on any buffer, for the place where they leave the reader.
use native.Mathlib.Nat.{zero-add, add-zero, suc-add}
use deepspace_outpost_dx.Base.{
  ltb, length, drop, length-drop, ℕ, zero, suc, ◌+◌, ◌≡◌, ap, ◌∙◌, Bool, ◌||◌, List, [], ◌∷◌, arith,
}
use deepspace_outpost_dx.Wire.{Reader, reader, read_u8, read_u16, read_u32, read_u64, read_bytes}

-- The reader after taking `n` bytes.
abbrev pub advance : ℕ → Reader → Reader
advance n r = reader (drop n r.rest) (r.failed || ltb (length r.rest) n)

advance_byte : (bs : List ℕ) (f : Bool) → (read_u8 (reader bs f)).1 ≡ advance 1 (reader bs f)
unfolding read_u8
advance_byte [] f = ground arith
advance_byte (b ∷ bs) f = ground arith

pub advance_u8 : (r : Reader) → (read_u8 r).1 ≡ advance 1 r
advance_u8 r = advance_byte r.rest r.failed

drop-drop {ℓ} : {A : Type ℓ} (m n : ℕ) (xs : List A) → drop n (drop m xs) ≡ drop (m + n) xs
drop-drop zero n xs = rw zero-add
drop-drop (suc m) zero [] = rw add-zero
drop-drop (suc m) (suc n) [] = rw suc-add
drop-drop (suc m) n (x ∷ xs) = rw suc-add (drop-drop m n xs)

advance-advance : (m n : ℕ) (r : Reader) → advance n (advance m r) ≡ advance (m + n) r
advance-advance m n r = ground (arith, drop-drop m n r.rest, length-drop m r.rest)

pub advance_u16 : (r : Reader) → (read_u16 r).1 ≡ advance 2 r
unfolding read_u16
advance_u16 r = advance_u8 (read_u8 r).1 ∙ ap (advance 1) (advance_u8 r) ∙ advance-advance 1 1 r

pub advance_u32 : (r : Reader) → (read_u32 r).1 ≡ advance 4 r
unfolding read_u32
advance_u32 r = advance_u16 (read_u16 r).1 ∙ ap (advance 2) (advance_u16 r) ∙ advance-advance 2 2 r

pub advance_u64 : (r : Reader) → (read_u64 r).1 ≡ advance 8 r
unfolding read_u64
advance_u64 r = advance_u32 (read_u32 r).1 ∙ ap (advance 4) (advance_u32 r) ∙ advance-advance 4 4 r

pub advance_bytes : (n : ℕ) (r : Reader) → (read_bytes n r).1 ≡ advance n r
unfolding read_bytes
advance_bytes zero r = ground arith
advance_bytes (suc n) r =
    advance_bytes n (read_u8 r).1
    ∙ ap (advance n) (advance_u8 r)
    ∙ advance-advance 1 n r
    ∙ ap (λ (k : ℕ). advance k r) (omega arith)

-- On any buffer, long enough or not, a read of a fixed width or of n bytes leaves the reader behind
-- that many bytes, at the end when there are fewer, and marks it as failed exactly when there are
-- fewer or it had failed before.
pub read-advance :
    (n : ℕ) (r : Reader)
    → ((read_u8 r).1 ≡ advance 1 r)
      × ((read_u16 r).1 ≡ advance 2 r)
      × ((read_u32 r).1 ≡ advance 4 r)
      × ((read_u64 r).1 ≡ advance 8 r)
      × ((read_bytes n r).1 ≡ advance n r)
read-advance n r = (advance_u8 r, advance_u16 r, advance_u32 r, advance_u64 r, advance_bytes n r)
