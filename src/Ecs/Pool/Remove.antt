-- ===== src/Ecs/Pool/Remove.antt =====
-- `Remove` of the pool, where the last component moves into the place that becomes free.
use deepspace_outpost_dx.Base.{
  ltb, ◌==◌, if◌then◌else◌, eq_cases, length, get_elem?, get_or, set, take, length-set, length-take,
  get_or-set, get_elem?-set, get_elem?-take, get_or_past, get_or_elem, get_elem?_inside, ℕ, ◌+◌,
  ◌-◌, ◌%◌, ◌^◌, ◌<◌, ◌≡◌, ◌≢◌, inl, inr, true, none, some, arith,
}
use deepspace_outpost_dx.Ecs.Pool.{invalid_index, Pool, pop_back, has, try_get, copy, remove}
use deepspace_outpost_dx.Ecs.Pool.Map.{IsValid, has_iff, slot_lt, slots_differ}

module _ {A : Type 0} (i : ℕ) (p : Pool A) (v : IsValid p)
    (there : get_or p.sparse i invalid_index ≢ invalid_index) where
  abbrev slot : ℕ
  slot = get_or p.sparse i invalid_index

  abbrev last : ℕ
  last = length p.dense - 1

  abbrev entity : ℕ
  entity = get_or p.dense last invalid_index

  slot_inside : slot < length p.dense
  slot_inside = slot_lt i p v there

  entity-last : get_elem? p.dense last ≡ some entity
  entity-last = let h = slot_inside in get_or_elem p.dense last invalid_index (omega arith)

  last-entity : get_or p.sparse entity invalid_index ≡ last
  last-entity = v.backward last entity entity-last

  component : (x : A) × (get_elem? p.components last ≡ some x)
  component = let h = slot_inside in get_elem?_inside p.components last (omega (arith, v.paired))

  abbrev removed : Pool A
  removed = record {
    components = take last (set p.components slot component.0);
    dense = take last (set p.dense slot entity);
    sparse = set (set p.sparse entity slot) i invalid_index;
  }

  remove_lem : remove i p ≡ removed
  unfolding remove pop_back
  remove_lem =
      let h = slot_inside in
      let small = v.small in
      let present : has i p ≡ true = ground (arith, has_iff i p) in
      let wrap : (length p.dense + 2 ^ 32 - 1) % 2 ^ 32 ≡ last = omega arith in
      let moved : copy slot last p.components ≡ set p.components slot component.0 =
        ground (arith, component.1) in
      rw (
        present,
        wrap,
        moved,
        length-set p.dense slot entity,
        length-set p.components slot component.0,
        v.paired,
      )

  removed_slot :
      (j : ℕ)
      → get_or removed.sparse j invalid_index ≡ (
          if i == j
          then invalid_index
          else if entity == j
          then slot
          else get_or p.sparse j invalid_index)
  removed_slot j = ground (
    arith,
    get_or-set (set p.sparse entity slot) i j invalid_index invalid_index,
    get_or-set p.sparse entity j slot invalid_index,
    get_or_past p.sparse i invalid_index there,
    get_or_past p.sparse entity invalid_index,
    length-set p.sparse entity slot,
    last-entity,
    slot_inside,
    v.small,
  )

  removed_dense :
      (s : ℕ)
      → get_elem? removed.dense s
        ≡ (if ltb s last then (if slot == s then some entity else get_elem? p.dense s) else none)
  removed_dense s = ground (
    arith,
    get_elem?-take last (set p.dense slot entity) s,
    get_elem?-set p.dense slot s entity,
    slot_inside,
  )

  removed_components :
      (s : ℕ)
      → get_elem? removed.components s ≡ (
          if ltb s last
          then (if slot == s then some component.0 else get_elem? p.components s)
          else none)
  removed_components s = ground (
    arith,
    get_elem?-take last (set p.components slot component.0) s,
    get_elem?-set p.components slot s component.0,
    slot_inside,
    v.paired,
  )

  removed-forward :
      (j : ℕ)
      → get_or removed.sparse j invalid_index ≢ invalid_index
      → get_elem? removed.dense (get_or removed.sparse j invalid_index) ≡ some j
  removed-forward j = rw (removed_slot j) (λ g. ground (
    arith,
    removed_dense slot,
    removed_dense (get_or p.sparse j invalid_index),
    v.forward j,
    v.forward i there,
    slot_lt j p v,
    slots_differ i j p v there,
    slots_differ i entity p v there,
    slots_differ j entity p v,
    last-entity,
    slot_inside,
  ))

  removed-backward :
      (s j : ℕ) → get_elem? removed.dense s ≡ some j → get_or removed.sparse j invalid_index ≡ s
  removed-backward s j e =
      ground (arith, removed_slot j, removed_dense s, v.backward s j, last-entity, slot_inside)

  removed-IsValid : IsValid removed
  removed-IsValid = record {
    paired = omega (
      arith,
      length-take last (set p.components slot component.0),
      length-take last (set p.dense slot entity),
      length-set p.components slot component.0,
      length-set p.dense slot entity,
      v.paired,
    );
    small = omega (arith, length-take last (set p.dense slot entity), v.small);
    forward = removed-forward;
    backward = removed-backward;
  }

  try_get-removed : (j : ℕ) → try_get j removed ≡ (if i == j then none else try_get j p)
  unfolding try_get
  try_get-removed j = ground (
    arith,
    has_iff j removed,
    has_iff j p,
    removed_slot j,
    removed_components slot,
    removed_components (get_or p.sparse j invalid_index),
    component.1,
    slot_lt j p v,
    slots_differ i j p v there,
    slots_differ i entity p v there,
    slots_differ j entity p v,
    last-entity,
    slot_inside,
    v.paired,
  )

module _ {A : Type 0} where
  remove_absent :
      (i : ℕ) (p : Pool A)
      → get_or p.sparse i invalid_index ≡ invalid_index
      → (remove i p ≡ p) × (try_get i p ≡ none)
  unfolding remove try_get
  remove_absent i p e = (ground (arith, has_iff i p), ground (arith, has_iff i p))

  -- Remove keeps a pool well formed, takes one entry out of the map, if it is there, and leaves
  -- all others, although the last component changes its place.
  pub remove-try_get :
      (i : ℕ) (p : Pool A)
      → IsValid p
      → IsValid (remove i p)
        × ((j : ℕ) → try_get j (remove i p) ≡ (if i == j then none else try_get j p))
  remove-try_get i p v = elim (eq_cases (get_or p.sparse i invalid_index) invalid_index) [
    | inl absent ↦
        let (same, gone) = remove_absent i p absent in
        rw same
          (v, λ j. elim (eq_cases i j) [ inl e ↦ ground (arith, gone) | inr e ↦ ground arith ])
    | inr there ↦
        rw (remove_lem i p v there) (removed-IsValid i p v there, try_get-removed i p v there)
  ]
