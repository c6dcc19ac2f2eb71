-- ===== src/Ecs/Registry/Lifetime.antt =====
-- Components when entities are destroyed and slots used again.
use deepspace_outpost_dx.Base.{
  ◌==◌, if◌then◌else◌, eq→==, ==_refl, ne→==, Bool-cases, eq_cases, length, get_or, All, get_or-set,
  get_or_past, ℕ, zero, suc, ◌+◌, ◌<◌, ◌≡◌, refl, ap, subst, ◌∙◌, inl, inr, false, Option, none,
  some, List, [], ◌∷◌, arith,
}
use deepspace_outpost_dx.Ecs.Registry.{
  EntityId, Registry, create, is_valid, remove_from_all, destroy, add, try_get,
}
use deepspace_outpost_dx.Ecs.Pool
use deepspace_outpost_dx.Ecs.Pool.{invalid_index, Pool}
use deepspace_outpost_dx.Ecs.Pool.Remove.{remove-try_get}
use deepspace_outpost_dx.Ecs.Registry.FreeList.{FreeSlots}
use deepspace_outpost_dx.Ecs.Registry.Handles.{
  IsSound, create_free, create_new, occupy-Creates, create-Creates,
}
use deepspace_outpost_dx.Ecs.Registry.Components.{
  GoodPool, get_in, try_get_lem, pool-add, get_in-add,
}

module _ {A : Type 0} where
  -- A dead slot has no component.
  abbrev pub IsClean : Registry A → Type 0
  IsClean r = (t i : ℕ) → get_or r.alive i false ≡ false → get_in i (get_or r.pools t none) ≡ none

  abbrev pub AllGood : Registry A → Type 0
  AllGood r = All GoodPool r.pools

  get_in-remove_from_all :
      (i j t : ℕ) (ps : List (Option (Pool.Pool A)))
      → All GoodPool ps
      → get_in j (get_or (remove_from_all i ps) t none)
        ≡ (if i == j then none else get_in j (get_or ps t none))
  unfolding remove_from_all
  get_in-remove_from_all i j t [] g = ground arith
  get_in-remove_from_all i j zero (none ∷ ps) g = ground arith
  get_in-remove_from_all i j zero (some p ∷ ps) g = (remove-try_get i p g.0.0).1 j
  get_in-remove_from_all i j (suc t) (none ∷ ps) g = get_in-remove_from_all i j t ps g.1
  get_in-remove_from_all i j (suc t) (some p ∷ ps) g = get_in-remove_from_all i j t ps g.1

  -- Destroy keeps a sound registry with well-formed pools free of components on dead slots.
  pub destroy-IsClean :
      (e : EntityId) (r : Registry A) → IsSound r → AllGood r → IsClean r → IsClean (destroy e r)
  unfolding destroy
  destroy-IsClean e r s g c t i = elim (Bool-cases (is_valid e r)) [
    | inr bad ↦ rw (bad, destroy) (c t i)
    | inl good ↦
        rw (good, destroy)
          (λ dead. get_in-remove_from_all e.index i t r.pools g ∙ elim (eq_cases e.index i) [
            | inl same ↦ rw (eq→== _ _ same)
            | inr other ↦
                rw (ne→== _ _ other)
                  (c t i (ground (arith, get_or-set r.alive e.index i false false)))
          ])
  ]

  created_slot :
      (r : Registry A)
      → IsSound r
      → ((create r).1.pools ≡ r.pools) × (get_or r.alive (create r).0.index false ≡ false)
  created_slot r s = go r.free refl
    where
      go :
          (l : List ℕ)
          → r.free ≡ l
          → ((create r).1.pools ≡ r.pools) × (get_or r.alive (create r).0.index false ≡ false)
      go [] e =
          rw (create_new r s e)
            (refl, ground (arith, get_or_past r.alive (length r.generations) false, s.paired))
      go (i ∷ is) e =
          let f : FreeSlots r.alive (i ∷ is) = subst (FreeSlots r.alive) e s.free_slots in
          rw (create_free r i is e) (refl, f.1)

  -- In a sound registry with room for one more slot and no component on a dead slot, a new entity
  -- starts with no component of any type.
  pub create_bare :
      (t : ℕ) (r : Registry A)
      → IsSound r
      → length r.generations + 1 < invalid_index
      → IsClean r
      → try_get t (create r).0 (create r).1 ≡ none
  create_bare t r s room c =
      let (pools, dead) = created_slot r s in
      try_get_lem t (create r).0 (create r).1 (create-Creates r s room).now_good
      ∙ ap (λ ps. get_in (create r).0.index (get_or ps t none)) pools
      ∙ c t (create r).0.index dead

  add-IsSound : (t : ℕ) (e : EntityId) (v : A) (r : Registry A) → IsSound r → IsSound (add t e v r)
  unfolding add
  add-IsSound t e v r s = record { paired = s.paired; small = s.small; free_slots = s.free_slots }

  add_free : (t : ℕ) (e : EntityId) (v : A) (r : Registry A) → (add t e v r).free ≡ r.free
  unfolding add
  add_free t e v r = refl

  -- Add does not look at the generation of its handle: in a sound registry, what is added through
  -- a handle whose slot is the next free one, into a well-formed pool that is not full, is read
  -- by the entity that is created next.
  pub add_stale :
      (t : ℕ) (e : EntityId) (v : A) (is : List ℕ) (r : Registry A)
      → IsSound r
      → GoodPool (get_or r.pools t none)
      → r.free ≡ e.index ∷ is
      → try_get t (create (add t e v r)).0 (create (add t e v r)).1 ≡ some v
  add_stale t e v is r s good f =
      let a : Registry A = add t e v r in
      let f' : a.free ≡ e.index ∷ is = add_free t e v r ∙ f in
      let made = occupy-Creates a e.index is (add-IsSound t e v r s) f' in
      rw (create_free a e.index is f') (
        try_get_lem t _ _ made.now_good
        ∙ ap (get_in e.index) (pool-add t t e v r)
        ∙ rw (==_refl t)
            (get_in-add e.index e v (get_or r.pools t none) good ∙ rw (==_refl e.index)))
