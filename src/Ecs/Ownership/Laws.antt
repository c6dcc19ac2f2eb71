-- ===== src/Ecs/Ownership/Laws.antt =====
-- The ownership index as a relation between owners and entities.
use deepspace_outpost_dx.Base.{
  ◌==◌, if◌then◌else◌, Bool-cases, eq_cases, Option-cases, lookup, lookup-insert, lookup-erase, ℕ,
  ◌≡◌, refl, ap, inl, inr, Bool, true, false, not, ◌&&◌, ◌||◌, List, [], ◌∷◌, ◌++◌, arith,
}
use deepspace_outpost_dx.Ecs.Ownership.{
  Index, holds, or_nil, back, swap_out, add, put_back, remove, owned,
}
use deepspace_outpost_dx.Ecs.Pool.{pop_back}
use deepspace_outpost_dx.Ecs.Registry.{EntityId, same_id}

-- No entity stands twice.
abbrev pub IsOnce : List EntityId → Type 0
IsOnce [] = Unit {0}
IsOnce (e ∷ es) = (holds e es ≡ false) × IsOnce es

abbrev pub owns : ℕ → EntityId → Index → Bool
owns owner e m = holds e (owned owner m)

-- No owner has an entity twice, and owner 0 has none.
pub record IsTidy (m : Index) : Type 0 where
  pub once : (owner : ℕ) → IsOnce (owned owner m)
  pub nobody : owned 0 m ≡ []

same_id-eq : (d e x : EntityId) → same_id d e ≡ true → same_id x d ≡ same_id x e
unfolding same_id
same_id-eq d e x h = ground arith

pub same_id_sym : (d e : EntityId) → same_id d e ≡ same_id e d
unfolding same_id
same_id_sym d e = ground arith

holds_same : (d e : EntityId) (xs : List EntityId) → same_id d e ≡ true → holds d xs ≡ holds e xs
unfolding holds
holds_same d e [] h = refl
holds_same d e (x ∷ xs) h = ground (arith, same_id-eq d e x h, holds_same d e xs h)

holds-append :
    (e : EntityId) (xs ys : List EntityId) → holds e (xs ++ ys) ≡ (holds e xs || holds e ys)
unfolding holds
holds-append e [] ys = refl
holds-append e (x ∷ xs) ys = ground (arith, holds-append e xs ys)

IsOnce-push :
    (e : EntityId) (xs : List EntityId) → IsOnce xs → holds e xs ≡ false → IsOnce (xs ++ e ∷ [])
unfolding holds
IsOnce-push e [] h n = (refl, tt)
IsOnce-push e (x ∷ xs) h n = (
  ground (arith, holds-append x xs (e ∷ []), same_id_sym x e, h.0),
  IsOnce-push e xs h.1 (ground arith),
)

holds-pop_back :
    (d y : EntityId) (ys : List EntityId)
    → holds d (y ∷ ys) ≡ (same_id (back y ys) d || holds d (pop_back (y ∷ ys)))
unfolding holds pop_back
holds-pop_back d y [] = refl
holds-pop_back d y (z ∷ zs) = ground (arith, holds-pop_back d z zs)

pop_back_next :
    (y z : EntityId) (zs : List EntityId) → pop_back (y ∷ z ∷ zs) ≡ y ∷ pop_back (z ∷ zs)
unfolding pop_back
pop_back_next y z zs = ground arith

IsOnce-pop_back :
    (y : EntityId) (ys : List EntityId)
    → IsOnce (y ∷ ys)
    → IsOnce (pop_back (y ∷ ys)) × (holds (back y ys) (pop_back (y ∷ ys)) ≡ false)
unfolding holds
IsOnce-pop_back y [] h = unfold pop_back in (tt, refl)
IsOnce-pop_back y (z ∷ zs) h =
    let (inner, last) = IsOnce-pop_back z zs h.1 in
    rw (pop_back_next y z zs) (
      (ground (arith, holds-pop_back y z zs, h.0), inner),
      ground (arith, holds-pop_back y z zs, h.0, last, same_id_sym (back z zs) y),
    )

-- With no entity twice, swapping one out takes it alone.
holds-swap_out :
    (e d : EntityId) (xs : List EntityId)
    → IsOnce xs
    → holds d (swap_out e xs) ≡ (holds d xs && not (same_id d e))
unfolding holds swap_out
holds-swap_out e d [] h = refl
holds-swap_out e d (x ∷ []) h = ground (arith, same_id_sym x d, same_id-eq x e d, same_id-eq d e x)
holds-swap_out e d (x ∷ y ∷ ys) h = ground (
  arith,
  same_id_sym x d,
  same_id-eq x e d,
  same_id-eq d e x,
  holds_same d x (y ∷ ys),
  holds-pop_back d y ys,
  holds-swap_out e d (y ∷ ys) h.1,
  h.0,
)

IsOnce-swap_out : (e : EntityId) (xs : List EntityId) → IsOnce xs → IsOnce (swap_out e xs)
unfolding swap_out
IsOnce-swap_out e [] h = tt
IsOnce-swap_out e (x ∷ []) h = elim (Bool-cases (same_id x e)) [
  | inl same ↦ rw same tt
  | inr other ↦ rw other (unfold holds in (refl, tt))
]
IsOnce-swap_out e (x ∷ y ∷ ys) h = elim (Bool-cases (same_id x e)) [
  | inl same ↦ rw same (let (inner, last) = IsOnce-pop_back y ys h.1 in (last, inner))
  | inr other ↦
      rw other
        (ground (arith, holds-swap_out e x (y ∷ ys) h.1, h.0), IsOnce-swap_out e (y ∷ ys) h.1)
]

owned-add :
    (o k : ℕ) (e : EntityId) (m : Index)
    → owned k (add o e m)
      ≡ (if not (o == 0) && o == k && not (owns k e m) then owned k m ++ e ∷ [] else owned k m)
unfolding owned add
owned-add o k e m = elim (eq_cases o k) [
  | inl same ↦ ground (
    arith,
    same,
    lookup-insert o k
        (if holds e (or_nil (lookup o m))
          then or_nil (lookup o m)
          else or_nil (lookup o m) ++ e ∷ [])
        m,
    ap (λ (j : ℕ). lookup j m) same,
  )
  | inr other ↦ ground (
    arith,
    lookup-insert o k
        (if holds e (or_nil (lookup o m))
          then or_nil (lookup o m)
          else or_nil (lookup o m) ++ e ∷ [])
        m,
  )
]

owned-put_back :
    (o k : ℕ) (es : List EntityId) (m : Index)
    → owned k (put_back o es m) ≡ (if o == k then es else owned k m)
unfolding owned
owned-put_back o k [] m = ground (arith, lookup-erase o k m)
owned-put_back o k (e ∷ es) m = ground (arith, lookup-insert o k (e ∷ es) m)

owned-remove :
    (o k : ℕ) (e : EntityId) (m : Index)
    → owned k (remove o e m) ≡ (if o == k then swap_out e (owned k m) else owned k m)
unfolding remove owned swap_out
owned-remove o k e m = elim (Option-cases (lookup o m)) [
  | inl missing ↦ elim (eq_cases o k) [
    | inl same ↦ ground (arith, missing, ap (λ (j : ℕ). lookup j m) same)
    | inr other ↦ ground (arith, missing)
  ]
  | inr (es, there) ↦ elim (eq_cases o k) [
    | inl same ↦
        ground (arith, there, ap (λ (j : ℕ). lookup j m) same, owned-put_back o k (swap_out e es) m)
    | inr other ↦ ground (arith, there, owned-put_back o k (swap_out e es) m)
  ]
]

IsOnce-if :
    (c : Bool) (e : EntityId) (xs : List EntityId)
    → IsOnce xs
    → (c ≡ true → holds e xs ≡ false)
    → IsOnce (if c then xs ++ e ∷ [] else xs)
IsOnce-if true e xs h n = IsOnce-push e xs h (n refl)
IsOnce-if false e xs h n = h

IsOnce-choice :
    (c : Bool) (xs ys : List EntityId) → IsOnce xs → IsOnce ys → IsOnce (if c then xs else ys)
IsOnce-choice true xs ys h g = h
IsOnce-choice false xs ys h g = g

-- In an index in which no owner has an entity twice and owner 0 has none, Add gives the entity to
-- the owner, unless that is owner 0, takes nothing from anybody, and keeps the index so.
pub add-Owns :
    (o : ℕ) (e : EntityId) (m : Index)
    → IsTidy m
    → IsTidy (add o e m)
      × ((k : ℕ) (d : EntityId)
          → owns k d (add o e m) ≡ (owns k d m || (not (o == 0) && o == k && same_id d e)))
add-Owns o e m t = (
  record {
    once = λ k. rw (owned-add o k e m) (IsOnce-if _ e (owned k m) (t.once k) (λ h. ground arith));
    nobody = rw (owned-add o 0 e m) (ground (arith, t.nobody));
  },
  λ k d. rw (owned-add o k e m) (
      unfold holds in
      ground
        (arith, holds-append d (owned k m) (e ∷ []), holds_same d e (owned k m), same_id_sym e d)),
)

-- In an index in which no owner has an entity twice and owner 0 has none, Remove takes the entity
-- from the owner and nothing else from anybody, and keeps the index so.
pub remove-Owns :
    (o : ℕ) (e : EntityId) (m : Index)
    → IsTidy m
    → IsTidy (remove o e m)
      × ((k : ℕ) (d : EntityId)
          → owns k d (remove o e m) ≡ (owns k d m && not (o == k && same_id d e)))
remove-Owns o e m t = (
  record {
    once = λ k.
        rw (owned-remove o k e m)
          (IsOnce-choice _ _ _ (IsOnce-swap_out e (owned k m) (t.once k)) (t.once k));
    nobody = rw (owned-remove o 0 e m) (unfold swap_out in ground (arith, t.nobody));
  },
  λ k d. rw (owned-remove o k e m) (ground (arith, holds-swap_out e d (owned k m) (t.once k))),
)
