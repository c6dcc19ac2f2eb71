-- ===== src/Base/Index.antt =====
-- Reading a list after it was changed, in one equation for each operation.
use Prim.Native.Nat.{ℕ, zero, suc, ◌<◌}
use mathlib.Core.Path.{◌≡◌, refl}
use mathlib.Core.Logic.{◌≢◌}
use mathlib.Core.Bool.{◌&&◌}
use mathlib.Core.List.{List, [], ◌∷◌, ◌++◌}
use mathlib.Core.Option.{none, some}
use native.Mathlib.Omega.{arith}
use deepspace_outpost_dx.Base.Tests.{ltb, ◌==◌, if◌then◌else◌}
use deepspace_outpost_dx.Base.Lists.{length, get_elem?, get_or, set, take, replicate}

module _ {ℓ} {A : Type ℓ} where
  pub get_or-set :
      (xs : List A) (i j : ℕ) (v d : A)
      → get_or (set xs i v) j d ≡ (if (i == j) && ltb i (length xs) then v else get_or xs j d)
  get_or-set [] i j v d = ground arith
  get_or-set (x ∷ xs) zero zero v d = ground arith
  get_or-set (x ∷ xs) zero (suc j) v d = ground arith
  get_or-set (x ∷ xs) (suc i) zero v d = ground arith
  get_or-set (x ∷ xs) (suc i) (suc j) v d = ground (arith, get_or-set xs i j v d)

  pub get_elem?-set :
      (xs : List A) (i j : ℕ) (v : A)
      → get_elem? (set xs i v) j
        ≡ (if (i == j) && ltb i (length xs) then some v else get_elem? xs j)
  get_elem?-set [] i j v = ground arith
  get_elem?-set (x ∷ xs) zero zero v = ground arith
  get_elem?-set (x ∷ xs) zero (suc j) v = ground arith
  get_elem?-set (x ∷ xs) (suc i) zero v = ground arith
  get_elem?-set (x ∷ xs) (suc i) (suc j) v = ground (arith, get_elem?-set xs i j v)

  pub get_elem?-take :
      (n : ℕ) (xs : List A) (j : ℕ)
      → get_elem? (take n xs) j ≡ (if ltb j n then get_elem? xs j else none)
  get_elem?-take zero xs j = ground arith
  get_elem?-take (suc n) [] j = ground arith
  get_elem?-take (suc n) (x ∷ xs) zero = ground arith
  get_elem?-take (suc n) (x ∷ xs) (suc j) = ground (arith, get_elem?-take n xs j)

  pub get_elem?-push :
      (xs : List A) (y : A) (j : ℕ)
      → get_elem? (xs ++ y ∷ []) j ≡ (if j == length xs then some y else get_elem? xs j)
  get_elem?-push [] y zero = ground arith
  get_elem?-push [] y (suc j) = ground arith
  get_elem?-push (x ∷ xs) y zero = ground arith
  get_elem?-push (x ∷ xs) y (suc j) = ground (arith, get_elem?-push xs y j)

  pub get_or-push :
      (xs : List A) (y : A) (j : ℕ) (d : A)
      → get_or (xs ++ y ∷ []) j d ≡ (if j == length xs then y else get_or xs j d)
  get_or-push [] y zero d = ground arith
  get_or-push [] y (suc j) d = ground arith
  get_or-push (x ∷ xs) y zero d = ground arith
  get_or-push (x ∷ xs) y (suc j) d = ground (arith, get_or-push xs y j d)

  get_or-replicate : (n : ℕ) (j : ℕ) (d : A) → get_or (replicate n d) j d ≡ d
  get_or-replicate zero j d = refl
  get_or-replicate (suc n) zero d = refl
  get_or-replicate (suc n) (suc j) d = get_or-replicate n j d

  pub get_or-append_replicate :
      (xs : List A) (n j : ℕ) (d : A) → get_or (xs ++ replicate n d) j d ≡ get_or xs j d
  get_or-append_replicate [] n j d = get_or-replicate n j d
  get_or-append_replicate (x ∷ xs) n zero d = refl
  get_or-append_replicate (x ∷ xs) n (suc j) d = get_or-append_replicate xs n j d

  pub get_or_past : (xs : List A) (j : ℕ) (d : A) → get_or xs j d ≢ d → j < length xs
  get_or_past [] j d h = absurd (h refl)
  get_or_past (x ∷ xs) zero d h = omega arith
  get_or_past (x ∷ xs) (suc j) d h = omega (arith, get_or_past xs j d h)

  pub get_or_elem :
      (xs : List A) (j : ℕ) (d : A) → j < length xs → get_elem? xs j ≡ some (get_or xs j d)
  get_or_elem [] j d h = elim h [ ]
  get_or_elem (x ∷ xs) zero d h = refl
  get_or_elem (x ∷ xs) (suc j) d h = get_or_elem xs j d (omega arith)

  pub length-replicate : (n : ℕ) (a : A) → length (replicate n a) ≡ n
  length-replicate zero a = refl
  length-replicate (suc n) a = omega (arith, length-replicate n a)

  pub get_elem?_inside : (xs : List A) (j : ℕ) → j < length xs → (x : A) × (get_elem? xs j ≡ some x)
  get_elem?_inside [] j h = elim h [ ]
  get_elem?_inside (x ∷ xs) zero h = (x, refl)
  get_elem?_inside (x ∷ xs) (suc j) h = get_elem?_inside xs j (omega arith)
