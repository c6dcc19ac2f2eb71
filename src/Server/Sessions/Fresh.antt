-- ===== src/Server/Sessions/Fresh.antt =====
-- The names that `UniqueName` tries, and what it settles on.
use deepspace_outpost_dx.Base.{
  ltb, Bool-cases, length, All, length-append, ℕ, zero, suc, ◌+◌, ◌-◌, ◌*◌, ◌/◌, ◌%◌, ◌≤◌, ◌<◌, ◌≡◌,
  refl, sym, ap, ◌∙◌, ◌≢◌, inl, inr, true, false, List, [], ◌∷◌, ◌++◌, arith,
}
use deepspace_outpost_dx.Server.Sessions.{Session}
use deepspace_outpost_dx.Server.Sessions.Name.{
  to_digits, is_taken, candidate, first_free, unique_name,
}
use deepspace_outpost_dx.Server.Sessions.Unique.{is_in, IsDistinct, taken_bound}
use deepspace_outpost_dx.Persist.Names.{same_name-ne}

-- The number that digits stand for, after the ones read so far.
abbrev value : ℕ → List ℕ → ℕ
value acc [] = acc
value acc (c ∷ cs) = value (acc * 10 + (c - 0x30)) cs

value-append : (acc : ℕ) (a b : List ℕ) → value acc (a ++ b) ≡ value (value acc a) b
value-append acc [] b = refl
value-append acc (c ∷ a) b = value-append (acc * 10 + (c - 0x30)) a b

to_digits_small : (fuel n : ℕ) → ltb n 10 ≡ true → to_digits (suc fuel) n ≡ (0x30 + n) ∷ []
unfolding to_digits
to_digits_small fuel n h = rw h refl

to_digits_large :
    (fuel n : ℕ)
    → ltb n 10 ≡ false
    → to_digits (suc fuel) n ≡ to_digits fuel (n / 10) ++ (0x30 + n % 10) ∷ []
unfolding to_digits
to_digits_large fuel n h = rw h refl

abbrev tens : ℕ → ℕ
tens zero = 1
tens (suc n) = 10 * tens n

-- What a number of at most as many digits as the fuel is written as stands for it.
value-to_digits : (fuel n : ℕ) → n < tens fuel → value 0 (to_digits fuel n) ≡ n
value-to_digits zero n h = unfold to_digits in omega arith
value-to_digits (suc fuel) n h = elim (Bool-cases (ltb n 10)) [
  | inl small ↦ rw (to_digits_small fuel n small) (omega arith)
  | inr large ↦ rw (to_digits_large fuel n large) (
      value-append 0 (to_digits fuel (n / 10)) ((0x30 + n % 10) ∷ [])
      ∙ omega (arith, value-to_digits fuel (n / 10) (omega (arith, h))))
]

append_cancel : (a b c : List ℕ) → a ++ b ≡ a ++ c → b ≡ c
append_cancel [] b c e = e
append_cancel (x ∷ a) b c e = append_cancel a b c (ground (arith, e))

candidate_apart :
    (base : List ℕ) (i j : ℕ) → i < 1000 → j < 1000 → i ≢ j → candidate base i ≢ candidate base j
unfolding candidate
candidate_apart base i j hi hj other e =
    let tails = append_cancel base (0x2D ∷ to_digits 10 i) (0x2D ∷ to_digits 10 j) e in
    let same : to_digits 10 i ≡ to_digits 10 j = append_cancel (0x2D ∷ []) _ _ tails in
    other (
      sym (value-to_digits 10 i (omega arith))
      ∙ ap (value 0) same
      ∙ value-to_digits 10 j (omega arith))

candidate_longer : (base : List ℕ) (i : ℕ) → base ≢ candidate base i
unfolding candidate
candidate_longer base i e =
    absurd
      (omega (arith, length-append base (0x2D ∷ to_digits 10 i), ap (λ (l : List ℕ). length l) e))

-- The names that the loop tries from i on.
abbrev tried : List ℕ → ℕ → ℕ → List (List ℕ)
tried base i zero = []
tried base i (suc left) = candidate base i ∷ tried base (suc i) left

is_in-tried :
    (base name : List ℕ) (i left : ℕ)
    → ((j : ℕ) → i ≤ j → j < i + left → name ≢ candidate base j)
    → is_in name (tried base i left) ≡ false
is_in-tried base name i zero h = refl
is_in-tried base name i (suc left) h =
    rw (same_name-ne name (candidate base i) (h i (omega arith) (omega arith)))
      (is_in-tried base name (suc i) left (λ j a b. h j (omega (arith, a)) (omega (arith, b))))

tried-IsDistinct : (base : List ℕ) (i left : ℕ) → i + left ≤ 1000 → IsDistinct (tried base i left)
tried-IsDistinct base i zero h = tt
tried-IsDistinct base i (suc left) h = (
  is_in-tried base (candidate base i) (suc i) left (λ j a b.
      candidate_apart base i j (omega arith) (omega (arith, b)) (λ e. omega (arith, a, e))),
  tried-IsDistinct base (suc i) left (omega arith),
)

length-tried : (base : List ℕ) (i left : ℕ) → length (tried base i left) ≡ left
length-tried base i zero = refl
length-tried base i (suc left) = omega (arith, length-tried base (suc i) left)

first_free_taken :
    (self : ℕ) (es : List (ℕ × Session)) (base : List ℕ) (i left : ℕ)
    → is_taken self es (first_free self es base i left) ≡ true
    → All (λ n. is_taken self es n ≡ true) (tried base i left)
unfolding first_free
first_free_taken self es base i zero h = tt
first_free_taken self es base i (suc left) h =
    elim (Bool-cases (is_taken self es (candidate base i))) [
      | inl taken ↦ (taken, first_free_taken self es base (suc i) left (ground (arith, h, taken)))
      | inr free ↦ absurd (ground (arith, h, free))
    ]

-- Among fewer than 999 sessions, the name that is settled on is no other session's.
pub unique_name-free :
    (base : List ℕ) (self : ℕ) (es : List (ℕ × Session))
    → length es < 999
    → is_taken self es (unique_name base self es) ≡ false
unfolding unique_name
unique_name-free base self es few = elim (Bool-cases (is_taken self es base)) [
  | inr free ↦ rw (free, unique_name) free
  | inl taken ↦
      rw (taken, unique_name)
        (elim (Bool-cases (is_taken self es (first_free self es base 2 998))) [
          | inr free ↦ free
          | inl full ↦ absurd (
              omega (
                arith,
                length-tried base 2 998,
                taken_bound self es (base ∷ tried base 2 998)
                    (
                      is_in-tried base base 2 998 (λ j a b. candidate_longer base j),
                      tried-IsDistinct base 2 998 (omega arith),
                    )
                    (taken, first_free_taken self es base 2 998 full),
              ))
        ])
]
