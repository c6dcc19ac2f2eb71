-- ===== src/Wire/Sound.antt =====
-- Reads that do not fail, for the bytes that they took.
use deepspace_outpost_dx.Base.{
  length, All, drop, ℕ, zero, suc, ◌+◌, ◌*◌, ◌^◌, ◌<◌, ◌≡◌, refl, sym, ap, ap₂, ◌∙◌, Bool, false,
  List, [], ◌∷◌, ◌++◌, append_assoc, arith,
}
use deepspace_outpost_dx.Wire.{Reader, reader, read_u8, read_u16, read_u32, read_u64, read_bytes}
use deepspace_outpost_dx.Wire.Bounds.{advance, advance_u8, advance_u16, advance_u32}
use deepspace_outpost_dx.Wire.RoundTrip.{bytes_u16, bytes_u32, bytes_u64}

abbrev pub IsByte : ℕ → Type 0
IsByte b = b < 256

-- From `r` a value below `bound` was taken, encoded as `code` says, and `r'` is left.
pub record Took (code : ℕ → List ℕ) (bound : ℕ) (r : Reader) (v : ℕ) (r' : Reader) : Type 0 where
  pub was_ok : r.failed ≡ false
  pub small : v < bound
  pub bytes_left : All IsByte r'.rest
  pub encoded : r.rest ≡ code v ++ r'.rest

abbrev byte_code : ℕ → List ℕ
byte_code v = v ∷ []

Took-byte :
    (bs : List ℕ) (f : Bool)
    → All IsByte bs
    → (read_u8 (reader bs f)).1.failed ≡ false
    → Took byte_code 256 (reader bs f) (read_u8 (reader bs f)).0 (read_u8 (reader bs f)).1
unfolding read_u8
Took-byte [] f h e = cc
Took-byte (b ∷ bs) f h e = record { was_ok = e; small = h.0; bytes_left = h.1; encoded = refl }

pub Took-u8 :
    (r : Reader)
    → All IsByte r.rest
    → (read_u8 r).1.failed ≡ false
    → Took byte_code 256 r (read_u8 r).0 (read_u8 r).1
Took-u8 r h e = Took-byte r.rest r.failed h e

pair_small : (lo hi n : ℕ) → lo < n → hi < n → lo + hi * n < n * n
pair_small lo hi n h k = grind arith

All-drop {ℓ κ} : {A : Type ℓ} (P : A → Type κ) (n : ℕ) (xs : List A) → All P xs → All P (drop n xs)
All-drop P zero xs h = h
All-drop P (suc n) [] h = tt
All-drop P (suc n) (x ∷ xs) h = All-drop P n xs h.1

-- The bytes after a read of known width.
pub left_bytes : (n : ℕ) (r r' : Reader) → r' ≡ advance n r → All IsByte r.rest → All IsByte r'.rest
left_bytes n r r' e h = rw e (All-drop IsByte n r.rest h)

-- Two halves of the same width, the low one first.
Took-halves :
    (half code : ℕ → List ℕ) (n : ℕ) (r r₁ r₂ : Reader) (lo hi : ℕ)
    → (lo < n → hi < n → code (lo + hi * n) ≡ half lo ++ half hi)
    → Took half n r lo r₁
    → Took half n r₁ hi r₂
    → Took code (n * n) r (lo + hi * n) r₂
Took-halves half code n r r₁ r₂ lo hi join h k = record {
  was_ok = h.was_ok;
  small = pair_small lo hi n h.small k.small;
  bytes_left = k.bytes_left;
  encoded =
      h.encoded
      ∙ ap (λ l. half lo ++ l) k.encoded
      ∙ sym (append_assoc (half lo) (half hi) r₂.rest)
      ∙ ap (λ l. l ++ r₂.rest) (sym (join h.small k.small));
}

join_u16 : (lo hi : ℕ) → lo < 2 ^ 8 → hi < 2 ^ 8 → bytes_u16 (lo + hi * 2 ^ 8) ≡ lo ∷ hi ∷ []
join_u16 lo hi h k = ground arith

join_u32 :
    (lo hi : ℕ)
    → lo < 2 ^ 16
    → hi < 2 ^ 16
    → bytes_u32 (lo + hi * 2 ^ 16) ≡ bytes_u16 lo ++ bytes_u16 hi
join_u32 lo hi h k =
    ap₂ {C = List ℕ} (λ (a b : ℕ). bytes_u16 a ++ bytes_u16 b) (omega arith) (omega arith)

join_u64 :
    (lo hi : ℕ)
    → lo < 2 ^ 32
    → hi < 2 ^ 32
    → bytes_u64 (lo + hi * 2 ^ 32) ≡ bytes_u32 lo ++ bytes_u32 hi
join_u64 lo hi h k =
    ap₂ {C = List ℕ} (λ (a b : ℕ). bytes_u32 a ++ bytes_u32 b) (omega arith) (omega arith)

pub Took-u16 :
    (r : Reader)
    → All IsByte r.rest
    → (read_u16 r).1.failed ≡ false
    → Took bytes_u16 (2 ^ 16) r (read_u16 r).0 (read_u16 r).1
unfolding read_u16
Took-u16 r h e =
    let second = Took-u8 (read_u8 r).1 (left_bytes 1 r (read_u8 r).1 (advance_u8 r) h) e in
    let first = Took-u8 r h second.was_ok in
    Took-halves byte_code bytes_u16 (2 ^ 8) r (read_u8 r).1 _ _ _ (join_u16 _ _) first second

pub Took-u32 :
    (r : Reader)
    → All IsByte r.rest
    → (read_u32 r).1.failed ≡ false
    → Took bytes_u32 (2 ^ 32) r (read_u32 r).0 (read_u32 r).1
unfolding read_u32
Took-u32 r h e =
    let second = Took-u16 (read_u16 r).1 (left_bytes 2 r (read_u16 r).1 (advance_u16 r) h) e in
    let first = Took-u16 r h second.was_ok in
    Took-halves bytes_u16 bytes_u32 (2 ^ 16) r (read_u16 r).1 _ _ _ (join_u32 _ _) first second

pub Took-u64 :
    (r : Reader)
    → All IsByte r.rest
    → (read_u64 r).1.failed ≡ false
    → Took bytes_u64 (2 ^ 64) r (read_u64 r).0 (read_u64 r).1
unfolding read_u64
Took-u64 r h e =
    let second = Took-u32 (read_u32 r).1 (left_bytes 4 r (read_u32 r).1 (advance_u32 r) h) e in
    let first = Took-u32 r h second.was_ok in
    Took-halves bytes_u32 bytes_u64 (2 ^ 32) r (read_u32 r).1 _ _ _ (join_u64 _ _) first second

-- A run of bytes.
pub took_bytes :
    (n : ℕ) (r : Reader)
    → All IsByte r.rest
    → (read_bytes n r).1.failed ≡ false
    → (r.failed ≡ false)
      × (length (read_bytes n r).0 ≡ n)
      × All IsByte (read_bytes n r).1.rest
      × (r.rest ≡ (read_bytes n r).0 ++ (read_bytes n r).1.rest)
unfolding read_bytes
took_bytes zero r h e = (e, refl, h, refl)
took_bytes (suc n) r h e =
    let more = took_bytes n (read_u8 r).1 (left_bytes 1 r (read_u8 r).1 (advance_u8 r) h) e in
    let first = Took-u8 r h more.0 in
    (first.was_ok, ap suc more.1, more.2, first.encoded ∙ ap (◌∷◌ (read_u8 r).0) more.3)
