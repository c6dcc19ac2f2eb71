-- ===== src/Server/Sessions/Unique.antt =====
-- Commander names as they are stored: clean, and no one else's.
use deepspace_outpost_dx.Base.{
  ltb, ◌==◌, if◌then◌else◌, Bool-cases, length, All, ℕ, ◌+◌, ◌≤◌, ◌≡◌, refl, sym, subst, inl, inr,
  Bool, true, false, not, ◌&&◌, ◌||◌, List, [], ◌∷◌, arith,
}
use deepspace_outpost_dx.Persist.Store.{same_name}
use deepspace_outpost_dx.Persist.Names.{same_name-eq}
use deepspace_outpost_dx.Server.Sessions.{Session}
use deepspace_outpost_dx.Server.Sessions.Name.{is_taken}

-- How many other sessions have the name.
abbrev pub bearers : ℕ → List (ℕ × Session) → List ℕ → ℕ
bearers self [] name = 0
bearers self ((k, s) ∷ es) name =
    (if not (k == self) && same_name s.name name then 1 else 0) + bearers self es name

is_taken_lem :
    (self : ℕ) (es : List (ℕ × Session)) (name : List ℕ)
    → is_taken self es name ≡ ltb 0 (bearers self es name)
unfolding is_taken
is_taken_lem self [] name = ground arith
is_taken_lem self ((k, s) ∷ es) name = ground (arith, is_taken_lem self es name)

-- One other session with any of the names.
abbrev pub hits : ℕ → ℕ → Session → List (List ℕ) → ℕ
hits self k s [] = 0
hits self k s (n ∷ ns) = (if not (k == self) && same_name s.name n then 1 else 0) + hits self k s ns

abbrev pub total : ℕ → List (ℕ × Session) → List (List ℕ) → ℕ
total self es [] = 0
total self es (n ∷ ns) = bearers self es n + total self es ns

abbrev pub is_in : List ℕ → List (List ℕ) → Bool
is_in n [] = false
is_in n (m ∷ ns) = same_name n m || is_in n ns

abbrev pub IsDistinct : List (List ℕ) → Type 0
IsDistinct [] = Unit {0}
IsDistinct (n ∷ ns) = (is_in n ns ≡ false) × IsDistinct ns

total_step :
    (self k : ℕ) (s : Session) (es : List (ℕ × Session)) (ns : List (List ℕ))
    → total self ((k, s) ∷ es) ns ≡ hits self k s ns + total self es ns
total_step self k s es [] = refl
total_step self k s es (n ∷ ns) = omega (arith, total_step self k s es ns)

hits_none :
    (self k : ℕ) (s : Session) (ns : List (List ℕ)) → is_in s.name ns ≡ false → hits self k s ns ≡ 0
hits_none self k s [] h = refl
hits_none self k s (n ∷ ns) h = ground (arith, hits_none self k s ns)

hits_once : (self k : ℕ) (s : Session) (ns : List (List ℕ)) → IsDistinct ns → hits self k s ns ≤ 1
hits_once self k s [] u = omega arith
hits_once self k s (n ∷ ns) u = elim (Bool-cases (same_name s.name n)) [
  | inl same ↦
      let none_left =
        hits_none self k s ns
          (subst (λ (m : List ℕ). is_in m ns ≡ false) (sym (same_name-eq s.name n same)) u.0) in
      ground (arith, none_left)
  | inr other ↦ ground (arith, other, hits_once self k s ns u.1)
]

total_bound :
    (self : ℕ) (es : List (ℕ × Session)) (ns : List (List ℕ))
    → IsDistinct ns
    → total self es ns ≤ length es
total_bound self [] ns u = omega (arith, total_nobody ns)
  where
    total_nobody : (ms : List (List ℕ)) → total self [] ms ≡ 0
    total_nobody [] = refl
    total_nobody (m ∷ ms) = omega (arith, total_nobody ms)
total_bound self ((k, s) ∷ es) ns u =
    omega (arith, total_step self k s es ns, hits_once self k s ns u, total_bound self es ns u)

all_taken :
    (self : ℕ) (es : List (ℕ × Session)) (ns : List (List ℕ))
    → All (λ n. is_taken self es n ≡ true) ns
    → length ns ≤ total self es ns
all_taken self es [] h = omega arith
all_taken self es (n ∷ ns) h = ground (arith, is_taken_lem self es n, h.0, all_taken self es ns h.1)

-- More different names than there are sessions are not all taken.
pub taken_bound :
    (self : ℕ) (es : List (ℕ × Session)) (ns : List (List ℕ))
    → IsDistinct ns
    → All (λ n. is_taken self es n ≡ true) ns
    → length ns ≤ length es
taken_bound self es ns u h = omega (arith, all_taken self es ns h, total_bound self es ns u)
