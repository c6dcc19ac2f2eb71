-- ===== src/Snapshot/Delta/Lookup.antt =====
-- The entity of an id, in lists of entities and in what a delta makes of them.
use deepspace_outpost_dx.Base.{
  ◌==◌, if◌then◌else◌, eq_cases, lookup, insert, lookup-insert, ℕ, ◌≡◌, refl, ap, inl, inr, true,
  false, not, ◌&&◌, Option, none, some, List, [], ◌∷◌, ◌++◌, arith,
}
use deepspace_outpost_dx.Snapshot.World.{EntitySnapshot}
use deepspace_outpost_dx.Snapshot.Delta.{contains, absent, ids, index_of, survivors}

module _ {F : Type 0} where
  -- The first entity of an id.
  abbrev pub find : ℕ → List (EntitySnapshot F) → Option (EntitySnapshot F)
  find k [] = none
  find k (e ∷ es) = if e.id == k then some e else find k es

  -- No id stands twice.
  abbrev pub IsUnique : List (EntitySnapshot F) → Type 0
  IsUnique [] = Unit {0}
  IsUnique (e ∷ es) = (find e.id es ≡ none) × IsUnique es

  pub find-append :
      (k : ℕ) (xs ys : List (EntitySnapshot F))
      → find k (xs ++ ys) ≡ elim (find k xs) [ none ↦ find k ys | some e ↦ some e ]
  find-append k [] ys = refl
  find-append k (x ∷ xs) ys = ground (arith, find-append k xs ys)

  pub contains-ids :
      (k : ℕ) (es : List (EntitySnapshot F))
      → contains k (ids es) ≡ elim (find k es) [ none ↦ false | some e ↦ true ]
  unfolding contains
  contains-ids k [] = refl
  contains-ids k (e ∷ es) = ground (arith, contains-ids k es)

  -- Survival depends on the id alone.
  pub find-survivors :
      (removed replaced : List ℕ) (k : ℕ) (es : List (EntitySnapshot F))
      → find k (survivors removed replaced es)
        ≡ (if not (contains k removed) && not (contains k replaced) then find k es else none)
  unfolding survivors
  find-survivors removed replaced k [] = ground arith
  find-survivors removed replaced k (e ∷ es) = elim (eq_cases e.id k) [
    | inl same ↦ ground (
      arith,
      find-survivors removed replaced k es,
      ap (λ (j : ℕ). contains j removed) same,
      ap (λ (j : ℕ). contains j replaced) same,
    )
    | inr other ↦ ground (arith, find-survivors removed replaced k es)
  ]

  -- With unique ids the map finds the entity of an id.
  pub lookup-index_of :
      (k : ℕ) (es : List (EntitySnapshot F)) (d : List (ℕ × EntitySnapshot F))
      → IsUnique es
      → lookup k (index_of es d) ≡ elim (find k es) [ none ↦ lookup k d | some e ↦ some e ]
  unfolding index_of
  lookup-index_of k [] d u = refl
  lookup-index_of k (e ∷ es) d u = elim (eq_cases e.id k) [
    | inl same ↦ ground (
      arith,
      lookup-index_of k es (insert e.id e d) u.1,
      lookup-insert e.id k e d,
      ap (λ (j : ℕ). find j es) same,
      u.0,
    )
    | inr other ↦
        ground (arith, lookup-index_of k es (insert e.id e d) u.1, lookup-insert e.id k e d)
  ]

pub contains-absent :
    (k : ℕ) (ks present : List ℕ)
    → contains k (absent ks present) ≡ (contains k ks && not (contains k present))
unfolding contains absent
contains-absent k [] present = refl
contains-absent k (j ∷ js) present = elim (eq_cases j k) [
  | inl same ↦ ground (arith, contains-absent k js present, ap (λ (i : ℕ). contains i present) same)
  | inr other ↦ ground (arith, contains-absent k js present)
]
