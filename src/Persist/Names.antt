-- ===== src/Persist/Names.antt =====
-- Maps whose keys are names, as the persistence store and its queues have them.
use deepspace_outpost_dx.Base.{
  if◌then◌else◌, ==→eq, Bool-cases, ℕ, ◌≡◌, refl, ap, ap₂, ◌≢◌, inl, inr, true, false, none, some,
  List, [], ◌∷◌, arith,
}
use deepspace_outpost_dx.Persist.Store.{same_name, find_name, put_name}

pub same_name_refl : (a : List ℕ) → same_name a a ≡ true
unfolding same_name
same_name_refl [] = refl
same_name_refl (x ∷ a) = ground (arith, same_name_refl a)

pub same_name-eq : (a b : List ℕ) → same_name a b ≡ true → a ≡ b
unfolding same_name
same_name-eq [] [] h = refl
same_name-eq [] (y ∷ b) h = cc
same_name-eq (x ∷ a) [] h = cc
same_name-eq (x ∷ a) (y ∷ b) h =
    ap₂ {C = List ℕ} (λ c l. c ∷ l) (==→eq x y (ground (arith, h)))
      (same_name-eq a b (ground (arith, h)))

pub same_name-ne : (a b : List ℕ) → a ≢ b → same_name a b ≡ false
same_name-ne a b h = elim (Bool-cases (same_name a b)) [
  | inl same ↦ absurd (h (same_name-eq a b same))
  | inr other ↦ other
]

pub same_name_sym : (a b : List ℕ) → same_name a b ≡ same_name b a
unfolding same_name
same_name_sym [] [] = refl
same_name_sym [] (y ∷ b) = refl
same_name_sym (x ∷ a) [] = refl
same_name_sym (x ∷ a) (y ∷ b) = ground (arith, same_name_sym a b)

module _ {V : Type 0} where
  pub find_name-put_name :
      (k j : List ℕ) (v : V) (d : List (List ℕ × V))
      → find_name j (put_name k v d) ≡ (if same_name k j then some v else find_name j d)
  unfolding find_name put_name
  find_name-put_name k j v [] = refl
  find_name-put_name k j v ((i, w) ∷ d) = elim (Bool-cases (same_name i k)) [
    | inl same ↦
        rw same (ground (arith, ap (λ (n : List ℕ). same_name n j) (same_name-eq i k same)))
    | inr other ↦ rw other (elim (Bool-cases (same_name i j)) [
      | inl hit ↦ rw hit (
          ground (
            arith,
            other,
            same_name_sym k i,
            ap (λ (n : List ℕ). same_name k n) (same_name-eq i j hit),
          ))
      | inr miss ↦ rw miss (find_name-put_name k j v d)
    ])
  ]

  -- No name stands twice.
  unfoldable pub IsNamed : List (List ℕ × V) → Type 0
  IsNamed [] = Unit {0}
  IsNamed ((k, v) ∷ d) = (find_name k d ≡ none) × IsNamed d

  pub IsNamed-put_name :
      (k : List ℕ) (v : V) (d : List (List ℕ × V)) → IsNamed d → IsNamed (put_name k v d)
  unfolding IsNamed put_name
  IsNamed-put_name k v [] h = (unfold find_name in refl, tt)
  IsNamed-put_name k v ((i, w) ∷ d) h = elim (Bool-cases (same_name i k)) [
    | inl same ↦ rw same h
    | inr other ↦ rw other (
      ground (arith, find_name-put_name k i v d, h.0, same_name_sym i k, other),
      IsNamed-put_name k v d h.1,
    )
  ]
