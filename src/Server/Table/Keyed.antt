-- ===== src/Server/Table/Keyed.antt =====
-- Lists of entries in which no key stands twice, as a map's entries are.
use deepspace_outpost_dx.Base.{
  ◌==◌, ==→eq, Bool-cases, lookup, insert, erase, lookup-insert, lookup-erase, ℕ, ◌≡◌, refl, subst,
  inl, inr, none, List, [], ◌∷◌, arith,
}

module _ {ℓ} {V : Type ℓ} where
  unfoldable pub IsKeyed : List (ℕ × V) → Type ℓ
  IsKeyed [] = Unit {ℓ}
  IsKeyed ((k, v) ∷ d) = (lookup k d ≡ none) × IsKeyed d

  pub IsKeyed-insert : (k : ℕ) (v : V) (d : List (ℕ × V)) → IsKeyed d → IsKeyed (insert k v d)
  unfolding IsKeyed insert
  IsKeyed-insert k v [] h = (unfold lookup in refl, tt)
  IsKeyed-insert k v ((j, w) ∷ d) h = elim (Bool-cases (j == k)) [
    | inl same ↦ rw same (subst (λ (i : ℕ). lookup i d ≡ none) (==→eq j k same) h.0, h.1)
    | inr other ↦ rw other (ground (arith, lookup-insert k j v d, h.0), IsKeyed-insert k v d h.1)
  ]

  pub IsKeyed-erase : (k : ℕ) (d : List (ℕ × V)) → IsKeyed d → IsKeyed (erase k d)
  unfolding IsKeyed erase
  IsKeyed-erase k [] h = tt
  IsKeyed-erase k ((j, w) ∷ d) h = elim (Bool-cases (j == k)) [
    | inl same ↦ rw same (IsKeyed-erase k d h.1)
    | inr other ↦ rw other (ground (arith, lookup-erase k j d, h.0), IsKeyed-erase k d h.1)
  ]
