-- ===== src/Base/Int.antt =====
-- Signed integers over the native numbers, under the library's names (its ℤ stands on the unary ℕ), and
-- the bit patterns of the fixed-width ones.
-- Sums and orders go through the two parts of an integer, which are numbers that `omega` reads.
use Prim.Native.Nat.{ℕ, suc, ◌+◌, ◌-◌, ◌%◌, ◌^◌, ◌≤◌, ◌<◌}
use mathlib.Core.Path.{◌≡◌}
use mathlib.Core.Bool.{Bool, true}
use native.Mathlib.Omega.{arith}
use deepspace_outpost_dx.Base.Tests.{ltb, leb, ◌==◌, if◌then◌else◌}

-- `negsuc n` is -(n + 1).
pub data ℤ : Type 0 where
  pos : ℕ → ℤ
  negsuc : ℕ → ℤ

abbrev pub pos_part : ℤ → ℕ
pos_part (pos n) = n
pos_part (negsuc n) = 0

abbrev pub neg_part : ℤ → ℕ
neg_part (pos n) = 0
neg_part (negsuc n) = suc n

-- a - b, as an integer.
abbrev pub sub_ℕ : ℕ → ℕ → ℤ
sub_ℕ a b = if leb b a then pos (a - b) else negsuc (b - a - 1)

infixl 65 ◌+ℤ◌ ◌-ℤ◌
infix 50 ◌≤ℤ◌
unfoldable pub ◌+ℤ◌ : ℤ → ℤ → ℤ
a +ℤ b = sub_ℕ (pos_part a + pos_part b) (neg_part a + neg_part b)

unfoldable pub ◌-ℤ◌ : ℤ → ℤ → ℤ
a -ℤ b = sub_ℕ (pos_part a + neg_part b) (neg_part a + pos_part b)

abbrev pub ◌≤ℤ◌ : ℤ → ℤ → Type 0
a ≤ℤ b = pos_part a + neg_part b ≤ pos_part b + neg_part a

abbrev pub ltb_ℤ : ℤ → ℤ → Bool
ltb_ℤ a b = ltb (pos_part a + neg_part b) (pos_part b + neg_part a)

-- With the operations unfolded `ground` splits on the signs.
-- One lemma for each operation lets `omega` work with the operations shut, at any depth.
pub +ℤ_parts :
    (a b : ℤ)
    → pos_part (a +ℤ b) + neg_part a + neg_part b ≡ neg_part (a +ℤ b) + pos_part a + pos_part b
unfolding ◌+ℤ◌
+ℤ_parts a b = ground arith

pub -ℤ_parts :
    (a b : ℤ)
    → pos_part (a -ℤ b) + neg_part a + pos_part b ≡ neg_part (a -ℤ b) + pos_part a + neg_part b
unfolding ◌-ℤ◌
-ℤ_parts a b = ground arith

pub eq_of_parts : (a b : ℤ) → pos_part a + neg_part b ≡ pos_part b + neg_part a → a ≡ b
eq_of_parts a b h = ground arith

pub ruleset int_laws = (arith, +ℤ_parts, -ℤ_parts, eq_of_parts)

infix 50 ◌==ℤ◌
abbrev pub ◌==ℤ◌ : ℤ → ℤ → Bool
a ==ℤ b = pos_part a + neg_part b == pos_part b + neg_part a

-- static_cast to the unsigned type of w bits, and back to the signed one.
unfoldable pub to_bits : ℕ → ℤ → ℕ
to_bits w a = (pos_part a + (2 ^ w - neg_part a % 2 ^ w)) % 2 ^ w

unfoldable pub of_bits : ℕ → ℕ → ℤ
of_bits w n = if ltb n (2 ^ (w - 1)) then pos n else negsuc (2 ^ w - n - 1)

-- The integers of 16, 32 and 64 bits.
abbrev pub IsInt : ℕ → ℤ → Type 0
IsInt w a = (neg_part a ≤ 2 ^ (w - 1)) × (pos_part a < 2 ^ (w - 1))

pub of_bits-to_bits_16 : (a : ℤ) → IsInt 16 a → of_bits 16 (to_bits 16 a) ≡ a
unfolding of_bits to_bits
of_bits-to_bits_16 a h = ground arith

pub of_bits-to_bits_32 : (a : ℤ) → IsInt 32 a → of_bits 32 (to_bits 32 a) ≡ a
unfolding of_bits to_bits
of_bits-to_bits_32 a h = ground arith

pub of_bits-to_bits_64 : (a : ℤ) → IsInt 64 a → of_bits 64 (to_bits 64 a) ≡ a
unfolding of_bits to_bits
of_bits-to_bits_64 a h = ground arith

pub to_bits-lt :
    (a : ℤ) → (to_bits 16 a < 2 ^ 16) × (to_bits 32 a < 2 ^ 32) × (to_bits 64 a < 2 ^ 64)
unfolding to_bits
to_bits-lt a = omega arith

pub ==ℤ→eq : (a b : ℤ) → (a ==ℤ b) ≡ true → a ≡ b
==ℤ→eq a b h = ground arith

pub IsInt-16 : (a : ℤ) → negsuc 32766 ≤ℤ a → a ≤ℤ pos 32767 → IsInt 16 a
IsInt-16 a lo hi = ground arith

pub pos-pos_part : (a : ℤ) → pos 0 ≤ℤ a → pos (pos_part a) ≡ a
pos-pos_part a h = ground arith
