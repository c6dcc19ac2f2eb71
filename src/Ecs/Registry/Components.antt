-- ===== src/Ecs/Registry/Components.antt =====
-- Components of entities, through good handles.
use deepspace_outpost_dx.Base.{
  ◌==◌, if◌then◌else◌, eq→==, ne→==, eq_cases, length, get_or, replicate, length-append, get_or-set,
  get_or-append_replicate, length-replicate, ℕ, ◌+◌, ◌-◌, ◌<◌, ◌≡◌, refl, sym, ap, ◌∙◌, inl, inr,
  true, ◌&&◌, Option, none, some, List, arith,
}
use deepspace_outpost_dx.Ecs.Registry.{
  EntityId, same_id, Registry, is_valid, try_pool_for, or_empty, reach, add, try_get,
}
use deepspace_outpost_dx.Ecs.Pool
use deepspace_outpost_dx.Ecs.Pool.{invalid_index, Pool, empty_pool, has, set_component}
use deepspace_outpost_dx.Ecs.Pool.Map.{IsValid, set_component-Sets}

module _ {A : Type 0} where
  abbrev pub GoodPool : Option (Pool.Pool A) → Type 0
  GoodPool none = Unit {0}
  GoodPool (some p) = IsValid p × (length p.dense + 1 < invalid_index)

  -- The component of an entity index in one pool.
  abbrev pub get_in : ℕ → Option (Pool.Pool A) → Option A
  get_in i none = none
  get_in i (some p) = Pool.try_get i p

  pub try_get_lem :
      (t : ℕ) (e : EntityId) (r : Registry A)
      → is_valid e r ≡ true
      → try_get t e r ≡ get_in e.index (get_or r.pools t none)
  unfolding try_get try_pool_for
  try_get_lem t e r h = go (get_or r.pools t none) refl
    where
      go :
          (o : Option (Pool.Pool A))
          → get_or r.pools t none ≡ o
          → try_get t e r ≡ get_in e.index (get_or r.pools t none)
      go none q = unfold try_get try_pool_for in ground (arith, h, q)
      go (some p) q = unfold try_get try_pool_for in ground (arith, h, q)

  get_in_empty : (i : ℕ) (o : Option (Pool.Pool A)) → Pool.try_get i (or_empty o) ≡ get_in i o
  unfolding Pool.try_get Pool.has
  get_in_empty i none = ground arith
  get_in_empty i (some p) = refl

  empty-IsValid : IsValid (Pool.empty_pool {A = A})
  empty-IsValid = record {
    paired = refl;
    small = omega arith;
    forward = λ i h. absurd (h refl);
    backward = λ s i e. cc;
  }

  or_empty-GoodPool :
      (o : Option (Pool.Pool A))
      → GoodPool o
      → IsValid (or_empty o) × (length (or_empty o).dense + 1 < invalid_index)
  or_empty-GoodPool none h = (empty-IsValid, omega arith)
  or_empty-GoodPool (some p) h = h

  reach_pools :
      (t u : ℕ) (ps : List (Option (Pool.Pool A))) → get_or (reach t ps) u none ≡ get_or ps u none
  reach_pools t u ps = ground (arith, get_or-append_replicate ps (t + 1 - length ps) u none)

  reach-lt : (t : ℕ) (ps : List (Option (Pool.Pool A))) → t < length (reach t ps)
  reach-lt t ps = ground (
    arith,
    length-append ps (replicate (t + 1 - length ps) none),
    length-replicate {A = Option (Pool.Pool A)} (t + 1 - length ps) none,
  )

  is_valid-add :
      (u : ℕ) (d e : EntityId) (v : A) (r : Registry A) → is_valid d (add u e v r) ≡ is_valid d r
  unfolding is_valid add
  is_valid-add u d e v r = refl

  -- The pool of a type after a component was added to a pool.
  pub pool-add :
      (t u : ℕ) (e : EntityId) (v : A) (r : Registry A)
      → get_or (add u e v r).pools t none ≡ (
          if u == t
          then some (Pool.set_component e.index v (or_empty (get_or r.pools u none)))
          else get_or r.pools t none)
  unfolding add try_pool_for
  pool-add t u e v r = ground (
    arith,
    get_or-set (reach u r.pools) u t
        (some (Pool.set_component e.index v (or_empty (get_or r.pools u none)))) none,
    reach-lt u r.pools,
    reach_pools u t r.pools,
  )

  -- Among good handles the index tells the entity.
  good_same :
      (d e : EntityId) (r : Registry A)
      → is_valid d r ≡ true
      → is_valid e r ≡ true
      → (e.index == d.index) ≡ same_id d e
  unfolding is_valid same_id
  good_same d e r hd he = ground arith

  pub get_in-add :
      (i : ℕ) (e : EntityId) (v : A) (o : Option (Pool.Pool A))
      → GoodPool o
      → Pool.try_get i (Pool.set_component e.index v (or_empty o))
        ≡ (if e.index == i then some v else get_in i o)
  get_in-add i e v o good =
      let g = or_empty-GoodPool o good in
      (set_component-Sets e.index v (or_empty o) g.0 g.1).1 i ∙ rw (get_in_empty i o)

  -- A component that is added through a good handle is what this handle reads, in this type only;
  -- every other good handle and every other type reads what it read before, if the pool of the
  -- type is well formed and not full.
  pub try_get-add :
      (t u : ℕ) (d e : EntityId) (v : A) (r : Registry A)
      → is_valid d r ≡ true
      → is_valid e r ≡ true
      → GoodPool (get_or r.pools u none)
      → try_get t d (add u e v r) ≡ (if u == t && same_id d e then some v else try_get t d r)
  try_get-add t u d e v r hd he good =
      try_get_lem t d (add u e v r) (is_valid-add u d e v r ∙ hd)
      ∙ ap (get_in d.index) (pool-add t u e v r)
      ∙ elim (eq_cases u t) [
        | inl same ↦ rw (eq→== u t same) (
            get_in-add d.index e v (get_or r.pools u none) good
            ∙ rw (
              good_same d e r hd he,
              try_get_lem t d r hd,
              ap (λ (k : ℕ). get_or r.pools k none) same,
            ))
        | inr other ↦ rw (ne→== u t other) (sym (try_get_lem t d r hd))
      ]
