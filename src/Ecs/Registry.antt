-- ===== src/Ecs/Registry.antt =====
-- `Registry` of NeuronCore/ECS.h: entities as generational handles, and their components.
-- The back of the vector `m_free` is the head of the list `free`. A component type is its
-- `ComponentTypeId`; the pools of all types hold values of one type `A`.
pub mod FreeList
pub mod Handles
pub mod Stale
pub mod Components
pub mod Lifetime
mod Tests
use deepspace_outpost_dx.Base.{
  ltb, leb, ◌==◌, if◌then◌else◌, length, get_or, set, replicate, ℕ, suc, ◌+◌, ◌-◌, ◌%◌, ◌^◌, Bool,
  true, false, not, ◌&&◌, Option, none, some, List, [], ◌∷◌, ◌++◌,
}
use deepspace_outpost_dx.Ecs.Pool
use deepspace_outpost_dx.Ecs.Pool.{invalid_index, Pool, empty_pool, has, set_component, each}

pub record EntityId : Type 0 where
  pub index : ℕ
  pub generation : ℕ

abbrev pub no_entity : EntityId
no_entity = record { index = invalid_index; generation = 0 }

unfoldable pub same_id : EntityId → EntityId → Bool
same_id d e = d.index == e.index && d.generation == e.generation

pub record Registry (A : Type 0) : Type 0 where
  pub generations : List ℕ
  pub alive : List Bool
  pub free : List ℕ
  pub pools : List (Option (Pool.Pool A))

abbrev count_true : List Bool → ℕ
count_true [] = 0
count_true (true ∷ bs) = suc (count_true bs)
count_true (false ∷ bs) = count_true bs

module _ {A : Type 0} where
  abbrev pub empty_registry : Registry A
  empty_registry = record { generations = []; alive = []; free = []; pools = [] }

  abbrev pub occupy : ℕ → Registry A → EntityId × Registry A
  occupy i r = (
    record { index = i; generation = get_or r.generations i 0 },
    record r { alive = set r.alive i true },
  )

  unfoldable pub create : Registry A → EntityId × Registry A
  create r = elim r.free [
    | i ∷ rest ↦ occupy i (record r { free = rest })
    | [] ↦
        occupy (length r.generations % 2 ^ 32)
          (record r { generations = r.generations ++ 0 ∷ []; alive = r.alive ++ false ∷ [] })
  ]

  unfoldable pub is_valid : EntityId → Registry A → Bool
  is_valid e r =
      ltb e.index (length r.generations)
      && get_or r.alive e.index false
      && get_or r.generations e.index 0 == e.generation

  unfoldable pub live_entity : ℕ → Registry A → EntityId
  live_entity i r =
      if ltb i (length r.alive) && get_or r.alive i false
      then record { index = i; generation = get_or r.generations i 0 }
      else no_entity

  unfoldable pub remove_from_all : ℕ → List (Option (Pool.Pool A)) → List (Option (Pool.Pool A))
  remove_from_all i [] = []
  remove_from_all i (none ∷ ps) = none ∷ remove_from_all i ps
  remove_from_all i (some p ∷ ps) = some (Pool.remove i p) ∷ remove_from_all i ps

  unfoldable pub destroy : EntityId → Registry A → Registry A
  destroy e r = if not (is_valid e r) then r else record {
    generations = set r.generations e.index ((get_or r.generations e.index 0 + 1) % 2 ^ 32);
    alive = set r.alive e.index false;
    free = e.index ∷ r.free;
    pools = remove_from_all e.index r.pools;
  }

  -- `PoolFor` and `TryPoolFor`; a place of the vector that was never filled is `none`.
  unfoldable pub try_pool_for : ℕ → Registry A → Option (Pool.Pool A)
  try_pool_for t r = get_or r.pools t none

  abbrev pub or_empty : Option (Pool.Pool A) → Pool.Pool A
  or_empty none = Pool.empty_pool
  or_empty (some p) = p

  abbrev pub reach : ℕ → List (Option (Pool.Pool A)) → List (Option (Pool.Pool A))
  reach t ps = if leb (length ps) t then ps ++ replicate (t + 1 - length ps) none else ps

  unfoldable pub add : ℕ → EntityId → A → Registry A → Registry A
  unfolding try_pool_for
  add t e v r = record r {
    pools =
        set (reach t r.pools) t (some (Pool.set_component e.index v (or_empty (try_pool_for t r))));
  }

  unfoldable pub has_component : ℕ → EntityId → Registry A → Bool
  has_component t e r =
      is_valid e r && elim (try_pool_for t r) [ none ↦ false | some p ↦ Pool.has e.index p ]

  unfoldable pub try_get : ℕ → EntityId → Registry A → Option A
  try_get t e r =
      if is_valid e r
      then elim (try_pool_for t r) [ none ↦ none | some p ↦ Pool.try_get e.index p ]
      else none

  unfoldable pub remove : ℕ → EntityId → Registry A → Registry A
  remove t e r =
      if is_valid e r
      then elim (try_pool_for t r) [
        | none ↦ r
        | some p ↦ record r { pools = set r.pools t (some (Pool.remove e.index p)) }
      ]
      else r

  abbrev entity_at : Registry A → ℕ → EntityId
  entity_at r i = record { index = i; generation = get_or r.generations i 0 }

  unfoldable pub with_handles : Registry A → List (ℕ × A) → List (EntityId × A)
  with_handles r [] = []
  with_handles r ((i, v) ∷ vs) = (entity_at r i, v) ∷ with_handles r vs

  -- What `Each` of one component type hands to its function, in this order.
  unfoldable pub each_entity : ℕ → Registry A → List (EntityId × A)
  each_entity t r = elim (try_pool_for t r) [ none ↦ [] | some p ↦ with_handles r (Pool.each p) ]

  -- The entities of the first pool that the second pool has a component for.
  unfoldable pub with_second : Registry A → Pool.Pool A → List (ℕ × A) → List (EntityId × A × A)
  with_second r p [] = []
  with_second r p ((i, v) ∷ vs) =
      let rest = with_second r p vs in
      elim (Pool.try_get i p) [ none ↦ rest | some w ↦ (entity_at r i, v, w) ∷ rest ]

  -- What `Each` of two component types hands to its function, in this order.
  unfoldable pub each_pair : ℕ → ℕ → Registry A → List (EntityId × A × A)
  each_pair t u r = elim (try_pool_for t r) [
    | none ↦ []
    | some p ↦ elim (try_pool_for u r) [ none ↦ [] | some q ↦ with_second r q (Pool.each p) ]
  ]

  unfoldable pub alive_count : Registry A → ℕ
  alive_count r = count_true r.alive
