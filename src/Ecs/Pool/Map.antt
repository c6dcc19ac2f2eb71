-- ===== src/Ecs/Pool/Map.antt =====
-- `Set` of the pool, for the map from entity indices to components that a pool stands for.
use deepspace_outpost_dx.Base.{
  leb, ◌==◌, if◌then◌else◌, ==→eq, Bool-cases, eq_cases, length, get_elem?, get_or, set, replicate,
  length-append, length-set, get_elem?-lt, get_or-set, get_elem?-set, get_elem?-push,
  get_or-append_replicate, get_or_past, length-replicate, ℕ, ◌+◌, ◌-◌, ◌%◌, ◌^◌, ◌≤◌, ◌<◌, ◌≡◌, ◌∙◌,
  ◌≢◌, inl, inr, not, some, [], ◌∷◌, ◌++◌, arith,
}
use deepspace_outpost_dx.Ecs.Pool.{
  invalid_index, Pool, resize, has, set_grown, set_component, try_get,
}

-- The two arrays point at each other.
pub record IsValid {ℓ} {A : Type ℓ} (p : Pool A) : Type ℓ where
  pub paired : length p.components ≡ length p.dense
  pub small : length p.dense < invalid_index
  pub forward :
      (i : ℕ)
      → get_or p.sparse i invalid_index ≢ invalid_index
      → get_elem? p.dense (get_or p.sparse i invalid_index) ≡ some i
  pub backward : (s i : ℕ) → get_elem? p.dense s ≡ some i → get_or p.sparse i invalid_index ≡ s

module _ {A : Type 0} where
  pub has_iff :
      (i : ℕ) (p : Pool A) → has i p ≡ not (get_or p.sparse i invalid_index == invalid_index)
  unfolding has
  has_iff i p = ground (arith, get_or_past p.sparse i invalid_index)

  -- The place of a component that is there.
  pub slot_lt :
      (i : ℕ) (p : Pool A)
      → IsValid p
      → get_or p.sparse i invalid_index ≢ invalid_index
      → get_or p.sparse i invalid_index < length p.dense
  slot_lt i p v h = get_elem?-lt p.dense _ i (v.forward i h)

  -- Making room at the end of the sparse array changes nothing.
  abbrev grow : ℕ → Pool A → Pool A
  grow n p = record p { sparse = resize n invalid_index p.sparse }

  grow-IsValid : (n : ℕ) (p : Pool A) → IsValid p → IsValid (grow n p)
  unfolding resize
  grow-IsValid n p v = record {
    paired = v.paired;
    small = v.small;
    forward = λ i. rw (get_or-append_replicate p.sparse _ i invalid_index) (v.forward i);
    backward = λ s i e. get_or-append_replicate p.sparse _ i invalid_index ∙ v.backward s i e;
  }

  try_get-grow : (n i : ℕ) (p : Pool A) → try_get i (grow n p) ≡ try_get i p
  unfolding try_get
  try_get-grow n i p = simp has_iff (unfold resize in rw (get_or-append_replicate p.sparse))

  -- A new component at the end of the dense arrays.
  abbrev pushed : ℕ → A → Pool A → Pool A
  pushed i v p = record {
    sparse = set p.sparse i (length p.dense);
    dense = p.dense ++ i ∷ [];
    components = p.components ++ v ∷ [];
  }

  module _ (i : ℕ) (a : A) (p : Pool A) (v : IsValid p) (h : i < length p.sparse)
      (free : get_or p.sparse i invalid_index ≡ invalid_index)
      (room : length p.dense + 1 < invalid_index) where
    pushed_slot :
        (j : ℕ)
        → get_or (pushed i a p).sparse j invalid_index
          ≡ (if i == j then length p.dense else get_or p.sparse j invalid_index)
    pushed_slot j = ground (arith, get_or-set p.sparse i j (length p.dense) invalid_index)

    pushed-forward :
        (j : ℕ)
        → get_or (pushed i a p).sparse j invalid_index ≢ invalid_index
        → get_elem? (p.dense ++ i ∷ []) (get_or (pushed i a p).sparse j invalid_index) ≡ some j
    pushed-forward j = rw (pushed_slot j) (λ g. elim (eq_cases i j) [
      | inl e ↦ ground (arith, get_elem?-push p.dense i (length p.dense))
      | inr e ↦ ground (
        arith,
        get_elem?-push p.dense i (get_or p.sparse j invalid_index),
        v.forward j,
        slot_lt j p v,
      )
    ])

    pushed-backward :
        (s j : ℕ)
        → get_elem? (p.dense ++ i ∷ []) s ≡ some j
        → get_or (pushed i a p).sparse j invalid_index ≡ s
    pushed-backward s j e =
        ground (
          arith,
          pushed_slot j,
          get_elem?-push p.dense i s,
          v.backward s j,
          get_elem?-lt p.dense s j,
        )

    pushed-IsValid : IsValid (pushed i a p)
    pushed-IsValid = record {
      paired =
          omega
            (arith, length-append p.components (a ∷ []), length-append p.dense (i ∷ []), v.paired);
      small = omega (arith, length-append p.dense (i ∷ []));
      forward = pushed-forward;
      backward = pushed-backward;
    }

    try_get-pushed : (j : ℕ) → try_get j (pushed i a p) ≡ (if i == j then some a else try_get j p)
    unfolding try_get
    try_get-pushed j = ground (
      arith,
      has_iff j (pushed i a p),
      has_iff j p,
      pushed_slot j,
      get_elem?-push p.components a (length p.dense),
      get_elem?-push p.components a (get_or p.sparse j invalid_index),
      slot_lt j p v,
      v.paired,
    )

  -- A component that is there is overwritten in its place.
  abbrev overwritten : ℕ → A → Pool A → Pool A
  overwritten i a p = record p { components = set p.components (get_or p.sparse i invalid_index) a }

  overwritten-IsValid : (i : ℕ) (a : A) (p : Pool A) → IsValid p → IsValid (overwritten i a p)
  overwritten-IsValid i a p v = record {
    paired = length-set p.components _ a ∙ v.paired;
    small = v.small;
    forward = v.forward;
    backward = v.backward;
  }

  -- Two entities have two places.
  pub slots_differ :
      (i j : ℕ) (p : Pool A)
      → IsValid p
      → get_or p.sparse i invalid_index ≢ invalid_index
      → get_or p.sparse i invalid_index ≡ get_or p.sparse j invalid_index
      → i ≡ j
  slots_differ i j p v h e = ground (arith, v.forward i, v.forward j)

  try_get-overwritten :
      (i j : ℕ) (a : A) (p : Pool A)
      → IsValid p
      → get_or p.sparse i invalid_index ≢ invalid_index
      → try_get j (overwritten i a p) ≡ (if i == j then some a else try_get j p)
  unfolding try_get
  try_get-overwritten i j a p v h = ground (
    arith,
    has_iff j (overwritten i a p),
    has_iff j p,
    get_elem?-set p.components (get_or p.sparse i invalid_index) (get_or p.sparse j invalid_index)
        a,
    slots_differ i j p v h,
    slot_lt i p v h,
    v.paired,
  )

  -- `set_component` with room for one more, on a sparse array that reaches the entity.
  abbrev pub Sets : ℕ → A → Pool A → Pool A → Type 0
  Sets i a p q = IsValid q × ((j : ℕ) → try_get j q ≡ (if i == j then some a else try_get j p))

  set_grown-Sets :
      (i : ℕ) (a : A) (p : Pool A)
      → IsValid p
      → i < length p.sparse
      → length p.dense + 1 < invalid_index
      → Sets i a p (set_grown i a p)
  unfolding set_grown
  set_grown-Sets i a p v h room =
      elim (Bool-cases (get_or p.sparse i invalid_index == invalid_index)) [
        | inl free ↦
            let e : get_or p.sparse i invalid_index ≡ invalid_index = ==→eq _ _ free in
            let fits : length p.dense % 2 ^ 32 ≡ length p.dense = omega arith in
            rw (free, fits, set_grown)
              (pushed-IsValid i a p v h e room, try_get-pushed i a p v h e room)
        | inr there ↦
            let e : get_or p.sparse i invalid_index ≢ invalid_index = ground arith in
            rw (there, set_grown)
              (overwritten-IsValid i a p v, λ j. try_get-overwritten i j a p v e)
      ]

  grow_reaches : (i : ℕ) (p : Pool A) → length p.sparse ≤ i → i < length (grow (i + 1) p).sparse
  unfolding resize
  grow_reaches i p h = omega (
    arith,
    length-append p.sparse (replicate (i + 1 - length p.sparse) invalid_index),
    length-replicate (i + 1 - length p.sparse) invalid_index,
  )

  -- Set keeps a pool well formed and writes one entry of the map that the pool stands for,
  -- leaving the others, whether the entity had the component or not, if fewer than 2 ^ 32 - 2
  -- components are stored.
  pub set_component-Sets :
      (i : ℕ) (a : A) (p : Pool A)
      → IsValid p
      → length p.dense + 1 < invalid_index
      → IsValid (set_component i a p)
        × ((j : ℕ) → try_get j (set_component i a p) ≡ (if i == j then some a else try_get j p))
  unfolding set_component
  set_component-Sets i a p v room = elim (Bool-cases (leb (length p.sparse) i)) [
    | inl short ↦
        let q : Pool A = grow (i + 1) p in
        let reaches : i < length q.sparse = grow_reaches i p (ground arith) in
        let h = set_grown-Sets i a q (grow-IsValid (i + 1) p v) reaches room in
        rw (short, set_component) (h.0, λ j. h.1 j ∙ rw (try_get-grow (i + 1) j p))
    | inr long ↦ rw (long, set_component) (set_grown-Sets i a p v (ground arith) room)
  ]
