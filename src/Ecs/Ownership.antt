-- ===== src/Ecs/Ownership.antt =====
-- NeuronCore/OwnershipIndex.h: which entities each owner has. Owner 0 stands for nobody.
pub mod Laws
mod Tests
use deepspace_outpost_dx.Base.{
  ◌==◌, if◌then◌else◌, length, lookup, insert, erase, ℕ, Bool, false, ◌||◌, Option, none, some,
  List, [], ◌∷◌, ◌++◌,
}
use deepspace_outpost_dx.Ecs.Pool.{pop_back}
use deepspace_outpost_dx.Ecs.Registry.{EntityId, same_id}

abbrev pub Index : Type 0
Index = List (ℕ × List EntityId)

unfoldable pub holds : EntityId → List EntityId → Bool
holds e [] = false
holds e (x ∷ xs) = same_id x e || holds e xs

abbrev pub or_nil : Option (List EntityId) → List EntityId
or_nil none = []
or_nil (some es) = es

abbrev pub back : EntityId → List EntityId → EntityId
back x [] = x
back x (y ∷ ys) = back y ys

-- The first occurrence gives its place to the last entity, and the last place goes.
unfoldable pub swap_out : EntityId → List EntityId → List EntityId
swap_out e [] = []
swap_out e (x ∷ xs) =
    let rest = swap_out e xs in
    if same_id x e then elim xs [ [] ↦ [] | y ∷ ys ↦ back y ys ∷ pop_back (y ∷ ys) ] else x ∷ rest

unfoldable pub add : ℕ → EntityId → Index → Index
add owner e m =
    let owned = or_nil (lookup owner m) in
    if owner == 0 then m else insert owner (if holds e owned then owned else owned ++ e ∷ []) m

abbrev pub put_back : ℕ → List EntityId → Index → Index
put_back owner [] m = erase owner m
put_back owner (e ∷ es) m = insert owner (e ∷ es) m

unfoldable pub remove : ℕ → EntityId → Index → Index
remove owner e m = elim (lookup owner m) [
  | none ↦ m
  | some owned ↦ put_back owner (swap_out e owned) m
]

unfoldable pub owned : ℕ → Index → List EntityId
owned owner m = or_nil (lookup owner m)

unfoldable pub forget : ℕ → Index → Index
forget owner m = erase owner m

unfoldable pub owned_count : ℕ → Index → ℕ
owned_count owner m = length (or_nil (lookup owner m))

unfoldable pub owner_count : Index → ℕ
owner_count m = length m

unfoldable pub clear : Index → Index
clear m = []
