-- ===== src/Ecs/Registry/FreeList.antt =====
-- The free list of the registry.
use deepspace_outpost_dx.Base.{
  length, get_or, set, All, length-append, length-set, get_or-set, get_or-push, ℕ, ◌<◌, ◌≡◌, ◌≢◌,
  Bool, true, false, List, [], ◌∷◌, ◌++◌, arith,
}

-- A slot on the free list is dead, and stands there once.
abbrev pub FreeSlots : List Bool → List ℕ → Type 0
FreeSlots alive [] = Unit {0}
FreeSlots alive (i ∷ is) =
    (i < length alive) × (get_or alive i false ≡ false) × All (λ j. j ≢ i) is × FreeSlots alive is

pub FreeSlots-set-false :
    (i : ℕ) (alive : List Bool) (free : List ℕ)
    → FreeSlots alive free
    → FreeSlots (set alive i false) free
FreeSlots-set-false i alive [] f = tt
FreeSlots-set-false i alive (j ∷ js) f = (
  omega (arith, length-set alive i false),
  ground (arith, get_or-set alive i j false false, f.1),
  f.2,
  FreeSlots-set-false i alive js f.3,
)

-- The free slots other than `i` do not see what is written at `i`.
pub FreeSlots-set-true :
    (i : ℕ) (alive : List Bool) (free : List ℕ)
    → All (λ j. j ≢ i) free
    → FreeSlots alive free
    → FreeSlots (set alive i true) free
FreeSlots-set-true i alive [] n f = tt
FreeSlots-set-true i alive (j ∷ js) n f = (
  omega (arith, length-set alive i true),
  ground (arith, get_or-set alive i j true false, f.1, n.0),
  f.2,
  FreeSlots-set-true i alive js n.1 f.3,
)

pub FreeSlots-push :
    (alive : List Bool) (free : List ℕ)
    → FreeSlots alive free
    → FreeSlots (alive ++ false ∷ []) free
FreeSlots-push alive [] f = tt
FreeSlots-push alive (j ∷ js) f = (
  omega (arith, length-append alive (false ∷ [])),
  ground (arith, get_or-push alive false j false, f.1),
  f.2,
  FreeSlots-push alive js f.3,
)

-- A live slot is not on the free list.
pub live_not_free :
    (i : ℕ) (alive : List Bool) (free : List ℕ)
    → get_or alive i false ≡ true
    → FreeSlots alive free
    → All (λ j. j ≢ i) free
live_not_free i alive [] h f = tt
live_not_free i alive (j ∷ js) h f = ((λ e. ground (arith, f.1)), live_not_free i alive js h f.3)

pub free_inside :
    (alive : List Bool) (free : List ℕ) → FreeSlots alive free → All (λ j. j < length alive) free
free_inside alive [] f = tt
free_inside alive (j ∷ js) f = (f.0, free_inside alive js f.3)
