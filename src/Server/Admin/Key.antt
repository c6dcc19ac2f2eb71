-- ===== src/Server/Admin/Key.antt =====
-- The comparison of the presented key with the secret: `KeyMatches` of NeuronServer/AdminChannel.h.
use deepspace_outpost_dx.Base.{
  ◌==◌, if◌then◌else◌, length, All, ℕ, zero, suc, ◌+◌, ◌*◌, ◌/◌, ◌%◌, ◌<◌, ◌≡◌, refl, sym, ap₂,
  subst, ◌↔◌, Bool, true, false, not, List, [], ◌∷◌, arith,
}

-- `a ^ b` and `a | b` on the lowest `n` bits.
unfoldable pub xor_bits : ℕ → ℕ → ℕ → ℕ
xor_bits zero a b = 0
xor_bits (suc n) a b = (a + b) % 2 + 2 * xor_bits n (a / 2) (b / 2)

unfoldable pub or_bits : ℕ → ℕ → ℕ → ℕ
or_bits zero a b = 0
or_bits (suc n) a b = (if a % 2 + b % 2 == 0 then 0 else 1) + 2 * or_bits n (a / 2) (b / 2)

-- The loop over the bytes of keys of one length.
unfoldable pub difference : ℕ → List ℕ → List ℕ → ℕ
difference diff [] presented = diff
difference diff (a ∷ key) [] = diff
difference diff (a ∷ key) (b ∷ presented) =
    difference (or_bits 8 diff (xor_bits 8 a b)) key presented

unfoldable pub key_matches : List ℕ → List ℕ → Bool
key_matches key presented =
    if not (length presented == length key) then false else difference 0 key presented == 0

xor_same : (n a : ℕ) → xor_bits n a a ≡ 0
unfolding xor_bits
xor_same zero a = refl
xor_same (suc n) a = omega (arith, xor_same n (a / 2))

or_zero : (n a : ℕ) → or_bits n 0 0 ≡ 0
unfolding or_bits
or_zero zero a = refl
or_zero (suc n) a = ground (arith, or_zero n a)

abbrev twos : ℕ → ℕ
twos zero = 1
twos (suc n) = 2 * twos n

-- Numbers of so many bits that do not differ in a bit are equal.
xor_zero : (n a b : ℕ) → a < twos n → b < twos n → xor_bits n a b ≡ 0 → a ≡ b
unfolding xor_bits
xor_zero zero a b ha hb e = omega (arith, ha, hb)
xor_zero (suc n) a b ha hb e =
    let halves =
      xor_zero n (a / 2) (b / 2) (omega (arith, ha)) (omega (arith, hb)) (omega (arith, e)) in
    omega (arith, e, halves)

xor_small : (n a b : ℕ) → xor_bits n a b < twos n
unfolding xor_bits
xor_small zero a b = omega arith
xor_small (suc n) a b = omega (arith, xor_small n (a / 2) (b / 2))

or_small : (n a b : ℕ) → or_bits n a b < twos n
unfolding or_bits
or_small zero a b = omega arith
or_small (suc n) a b = ground (arith, or_small n (a / 2) (b / 2))

or_none : (n a b : ℕ) → a < twos n → b < twos n → or_bits n a b ≡ 0 → (a ≡ 0) × (b ≡ 0)
unfolding or_bits
or_none zero a b ha hb e = (omega arith, omega arith)
or_none (suc n) a b ha hb e =
    let (x, y) =
      or_none n (a / 2) (b / 2) (omega (arith, ha)) (omega (arith, hb)) (ground (arith, e)) in
    (ground (arith, e, x), ground (arith, e, y))

difference_same : (key : List ℕ) → difference 0 key key ≡ 0
unfolding difference
difference_same [] = refl
difference_same (a ∷ key) = rw (xor_same 8 a, or_zero 8 0) (difference_same key)

difference_none :
    (diff : ℕ) (key presented : List ℕ)
    → diff < 256
    → All (λ c. c < 256) key
    → All (λ c. c < 256) presented
    → length presented ≡ length key
    → difference diff key presented ≡ 0
    → (diff ≡ 0) × (presented ≡ key)
unfolding difference
difference_none diff [] [] d hk hp l e = (e, refl)
difference_none diff [] (b ∷ presented) d hk hp l e = absurd (omega (arith, l))
difference_none diff (a ∷ key) [] d hk hp l e = absurd (omega (arith, l))
difference_none diff (a ∷ key) (b ∷ presented) d hk hp l e =
    let (clear, rest) =
      difference_none (or_bits 8 diff (xor_bits 8 a b)) key presented
        (or_small 8 diff (xor_bits 8 a b)) hk.1 hp.1 (omega (arith, l)) e in
    let (zero_diff, zero_xor) = or_none 8 diff (xor_bits 8 a b) d (xor_small 8 a b) clear in
    (zero_diff, ap₂ {C = List ℕ} (λ c cs. c ∷ cs) (sym (xor_zero 8 a b hk.0 hp.0 zero_xor)) rest)

-- Of keys of bytes, the comparison that reads them to the end accepts exactly the secret.
pub key_matches_lem :
    (key presented : List ℕ)
    → All (λ c. c < 256) key
    → All (λ c. c < 256) presented
    → (key_matches key presented ≡ true) ↔ (presented ≡ key)
unfolding key_matches
key_matches_lem key presented hk hp = (forth, back)
  where
    forth : key_matches key presented ≡ true → presented ≡ key
    forth e =
        unfold key_matches in
        (difference_none 0 key presented (omega arith) hk hp (ground (arith, e))
          (ground (arith, e))).1

    back : presented ≡ key → key_matches key presented ≡ true
    back e =
        subst (λ (p : List ℕ). key_matches key p ≡ true) (sym e)
          (unfold key_matches in ground (arith, difference_same key))
