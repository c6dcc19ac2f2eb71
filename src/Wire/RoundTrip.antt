-- ===== src/Wire/RoundTrip.antt =====
-- The bytes of fields, from the writer to the reader.
use deepspace_outpost_dx.Base.{
  length, ℕ, ◌/◌, ◌%◌, ◌^◌, ◌<◌, ◌≡◌, refl, sym, ◌∙◌, Bool, false, List, [], ◌∷◌, ◌++◌,
  append_assoc, append-nil, arith,
}
use deepspace_outpost_dx.Wire.{
  write_u8, write_u16, write_u32, write_u64, write_bytes, reader, open_reader, Read, ◌>>=◌, ret,
  read_u8, read_u16, read_u32, read_u64, read_bytes,
}

-- The bytes of a number, lowest first.
abbrev pub bytes_u16 : ℕ → List ℕ
bytes_u16 v = (v % 256) ∷ (v / 256 % 256) ∷ []

abbrev pub bytes_u32 : ℕ → List ℕ
bytes_u32 v = bytes_u16 (v % 2 ^ 16) ++ bytes_u16 (v / 2 ^ 16 % 2 ^ 16)

abbrev pub bytes_u64 : ℕ → List ℕ
bytes_u64 v = bytes_u32 (v % 2 ^ 32) ++ bytes_u32 (v / 2 ^ 32 % 2 ^ 32)

pub write_u16_lem : (v : ℕ) (w : List ℕ) → write_u16 v w ≡ w ++ bytes_u16 v
unfolding write_u16
write_u16_lem v w = append_assoc w _ _

pub write_u32_lem : (v : ℕ) (w : List ℕ) → write_u32 v w ≡ w ++ bytes_u32 v
unfolding write_u32
write_u32_lem v w = simp append_assoc

pub write_u64_lem : (v : ℕ) (w : List ℕ) → write_u64 v w ≡ w ++ bytes_u64 v
unfolding write_u64
write_u64_lem v w = simp append_assoc

pub write_bytes_lem : (bs w : List ℕ) → write_bytes bs w ≡ w ++ bs
unfolding write_bytes
write_bytes_lem [] w = sym (append-nil w)
write_bytes_lem (b ∷ bs) w = write_bytes_lem bs (w ++ b ∷ []) ∙ append_assoc w (b ∷ []) bs

-- The writers, as what they append.
pub ruleset writes = (write_u16_lem, write_u32_lem, write_u64_lem, write_bytes_lem, append_assoc)

pub read_u16_lem :
    (v : ℕ) (bs : List ℕ) (f : Bool)
    → v < 2 ^ 16
    → read_u16 (reader (bytes_u16 v ++ bs) f) ≡ (v, reader bs f)
unfolding read_u16
read_u16_lem v bs f h = ground arith

pub read_u32_lem :
    (v : ℕ) (bs : List ℕ) (f : Bool)
    → v < 2 ^ 32
    → read_u32 (reader (bytes_u32 v ++ bs) f) ≡ (v, reader bs f)
unfolding read_u32
read_u32_lem v bs f h = ground arith

pub read_u64_lem :
    (v : ℕ) (bs : List ℕ) (f : Bool)
    → v < 2 ^ 64
    → read_u64 (reader (bytes_u64 v ++ bs) f) ≡ (v, reader bs f)
unfolding read_u64
read_u64_lem v bs f h = ground arith

pub read_bytes_lem :
    (xs bs : List ℕ) (f : Bool) → read_bytes (length xs) (reader (xs ++ bs) f) ≡ (xs, reader bs f)
unfolding read_bytes
read_bytes_lem [] bs f = refl
read_bytes_lem (x ∷ xs) bs f = ground (arith, read_bytes_lem xs bs f)

read_u8_lem : (v : ℕ) (bs : List ℕ) (f : Bool) → read_u8 (reader (v ∷ bs) f) ≡ (v, reader bs f)
unfolding read_u8
read_u8_lem v bs f = refl

write_u8_lem : (v : ℕ) (w : List ℕ) → write_u8 v w ≡ w ++ v ∷ []
unfolding write_u8
write_u8_lem v w = refl

-- A packet with a field of every width.
abbrev pub read_fields : ℕ → Read (ℕ × ℕ × ℕ × ℕ × List ℕ)
read_fields n = do
  a ← read_u8
  b ← read_u16
  c ← read_u32
  d ← read_u64
  payload ← read_bytes n
  ret (a, b, c, d, payload)

-- A field of every width, read back in the order in which they were written: each value is as it
-- was, no byte is left, and nothing failed, if the three wider values fit their widths.
pub read-write :
    (a b c d : ℕ) (payload : List ℕ)
    → b < 2 ^ 16
    → c < 2 ^ 32
    → d < 2 ^ 64
    → read_fields (length payload) (
        open_reader (write_bytes payload (write_u64 d (write_u32 c (write_u16 b (write_u8 a []))))))
      ≡ ((a, b, c, d, payload), reader [] false)
read-write a b c d payload hb hc hd =
    rw
      (sym (
          append-nil
            (write_bytes payload (write_u64 d (write_u32 c (write_u16 b (write_u8 a []))))))
        ∙ whole)
      (rw (
        read_u8_lem a (bytes_u16 b ++ (bytes_u32 c ++ (bytes_u64 d ++ (payload ++ [])))) false,
        read_u16_lem b (bytes_u32 c ++ (bytes_u64 d ++ (payload ++ []))) false hb,
        read_u32_lem c (bytes_u64 d ++ (payload ++ [])) false hc,
        read_u64_lem d (payload ++ []) false hd,
        read_bytes_lem payload [] false,
      ))
  where
    whole :
        write_bytes payload (write_u64 d (write_u32 c (write_u16 b (write_u8 a [])))) ++ []
        ≡ a ∷ (bytes_u16 b ++ (bytes_u32 c ++ (bytes_u64 d ++ (payload ++ []))))
    whole = simp (writes, write_u8_lem)
