-- ===== src/Base/Dict.antt =====
-- Maps with numeric keys: `find`, `map[key] = v` and `erase` on an association list.
use Prim.Native.Nat.{ℕ, ◌<◌, ◌≤◌}
use mathlib.Core.Path.{◌≡◌, refl, subst, ap₂}
use mathlib.Core.Logic.{inl, inr}
use mathlib.Core.List.{List, [], ◌∷◌}
use mathlib.Core.Option.{Option, none, some}
use native.Mathlib.Omega.{arith}
use deepspace_outpost_dx.Base.Tests.{◌==◌, ==→eq, Bool-cases, if◌then◌else◌}
use deepspace_outpost_dx.Base.Lists.{length, All}

module _ {ℓ} {V : Type ℓ} where
  unfoldable pub lookup : ℕ → List (ℕ × V) → Option V
  lookup k [] = none
  lookup k ((j, v) ∷ d) = if j == k then some v else lookup k d

  unfoldable pub insert : ℕ → V → List (ℕ × V) → List (ℕ × V)
  insert k v [] = (k, v) ∷ []
  insert k v ((j, w) ∷ d) = if j == k then (k, v) ∷ d else (j, w) ∷ insert k v d

  unfoldable pub erase : ℕ → List (ℕ × V) → List (ℕ × V)
  erase k [] = []
  erase k ((j, w) ∷ d) = if j == k then erase k d else (j, w) ∷ erase k d

  pub lookup-insert :
      (k j : ℕ) (v : V) (d : List (ℕ × V))
      → lookup j (insert k v d) ≡ (if k == j then some v else lookup j d)
  unfolding lookup insert
  lookup-insert k j v [] = refl
  lookup-insert k j v ((i, w) ∷ d) = ground (arith, lookup-insert k j v d)

  pub lookup-erase :
      (k j : ℕ) (d : List (ℕ × V)) → lookup j (erase k d) ≡ (if k == j then none else lookup j d)
  unfolding lookup erase
  lookup-erase k j [] = ground arith
  lookup-erase k j ((i, w) ∷ d) = ground (arith, lookup-erase k j d)

  pub length-erase-le : (k : ℕ) (d : List (ℕ × V)) → length (erase k d) ≤ length d
  unfolding erase
  length-erase-le k [] = omega arith
  length-erase-le k ((i, w) ∷ d) = ground (arith, length-erase-le k d)

  pub length-erase-lt :
      (k : ℕ) (d : List (ℕ × V)) (v : V) → lookup k d ≡ some v → length (erase k d) < length d
  unfolding erase lookup
  length-erase-lt k [] v e = cc
  length-erase-lt k ((i, w) ∷ d) v e = ground (arith, length-erase-le k d, length-erase-lt k d v)

  pub lookup-All {κ} :
      (P : ℕ × V → Type κ) (k : ℕ) (d : List (ℕ × V)) (v : V)
      → All P d
      → lookup k d ≡ some v
      → P (k, v)
  unfolding lookup
  lookup-All P k [] v h e = cc
  lookup-All P k ((j, w) ∷ d) v h e = elim (Bool-cases (j == k)) [
    | inl hit ↦ subst P (ap₂ {C = ℕ × V} (λ a b. (a, b)) (==→eq j k hit) (ground arith)) h.0
    | inr miss ↦ lookup-All P k d v h.1 (ground arith)
  ]

  pub All-erase {κ} : (P : ℕ × V → Type κ) (k : ℕ) (d : List (ℕ × V)) → All P d → All P (erase k d)
  unfolding erase
  All-erase P k [] h = tt
  All-erase P k ((j, w) ∷ d) h = ground (arith, All-erase P k d h.1)
