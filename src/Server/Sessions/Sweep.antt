-- ===== src/Server/Sessions/Sweep.antt =====
-- What `Reap` leaves of the sessions.
use deepspace_outpost_dx.Base.{
  ◌==◌, if◌then◌else◌, ==_refl, ne→==, ==→eq, Bool-cases, eq_cases, All, lookup, erase,
  lookup-erase, ℕ, ◌≡◌, refl, ap, subst, ◌∙◌, inl, inr, Bool, true, false, Option, none, some, List,
  [], ◌∷◌, arith,
}
use deepspace_outpost_dx.Ecs.Registry.{Registry}
use deepspace_outpost_dx.Server.Table.{drop_session}
use deepspace_outpost_dx.Server.Table.Keyed.{IsKeyed}
use deepspace_outpost_dx.Server.Table.Laws.{IsSound, held-some, IsSound-drop}
use deepspace_outpost_dx.Server.Table.Every.{Every-erase}
use deepspace_outpost_dx.Server.Sessions.{Session, Sessions}
use deepspace_outpost_dx.Server.Sessions.Good.{token_of, IsFit, IsGood, same_table}
use deepspace_outpost_dx.Server.Sessions.Reap.{is_idle, expire, reap_each, reap}

abbrev pub idle_one : ℕ → ℕ → ℕ → Option Session → Bool
idle_one tick shell grace none = false
idle_one tick shell grace (some s) = is_idle tick shell grace s

-- The entries of the loop that it has not come to stand in the table.
AllHere : List (ℕ × Session) → List (ℕ × Session) → Type 0
AllHere es d = All (λ (e : ℕ × Session). lookup e.0 d ≡ some e.1) es

AllHere-erase :
    (k : ℕ) (es d : List (ℕ × Session)) → lookup k es ≡ none → AllHere es d → AllHere es (erase k d)
unfolding AllHere lookup
AllHere-erase k [] d n h = tt
AllHere-erase k ((j, s) ∷ es) d n h = elim (Bool-cases (j == k)) [
  | inl same ↦ absurd (ground (arith, same, n))
  | inr other ↦
      (ground (arith, lookup-erase k j d, h.0), AllHere-erase k es d (ground (arith, n)) h.1)
]

module _ {A : Type 0} (tick shell grace : ℕ) where
  expire-sessions :
      (k : ℕ) (s : Session) (r : List ℕ × Registry A × Sessions)
      → (expire k s r).2.table ≡ drop_session k s.token r.2.table
  unfolding expire
  expire-sessions k s r = refl

  expire-IsGood :
      (k : ℕ) (s : Session) (r : List ℕ × Registry A × Sessions)
      → IsGood r.2
      → lookup k r.2.table.sessions ≡ some s
      → IsGood (expire k s r).2
  unfolding expire
  expire-IsGood k s r g here = record {
    sound =
        subst (λ (n : ℕ). IsSound token_of (drop_session k n r.2.table))
          (held-some token_of k r.2.table.sessions s here)
          (IsSound-drop token_of k r.2.table g.sound);
    fit = unfold drop_session in (Every-erase IsFit k r.2.table.sessions g.fit);
  }

  pub reap_each_idle :
      (k : ℕ) (s : Session) (es : List (ℕ × Session)) (r : List ℕ × Registry A × Sessions)
      → is_idle tick shell grace s ≡ true
      → reap_each tick shell grace ((k, s) ∷ es) r ≡ reap_each tick shell grace es (expire k s r)
  unfolding reap_each
  reap_each_idle k s es r h = rw h refl

  pub reap_each_busy :
      (k : ℕ) (s : Session) (es : List (ℕ × Session)) (r : List ℕ × Registry A × Sessions)
      → is_idle tick shell grace s ≡ false
      → reap_each tick shell grace ((k, s) ∷ es) r ≡ reap_each tick shell grace es r
  unfolding reap_each
  reap_each_busy k s es r h = rw h refl

  reap_each-IsGood :
      (es : List (ℕ × Session)) (r : List ℕ × Registry A × Sessions)
      → IsKeyed es
      → AllHere es r.2.table.sessions
      → IsGood r.2
      → IsGood (reap_each tick shell grace es r).2
  unfolding reap_each AllHere IsKeyed
  reap_each-IsGood [] r u h g = g
  reap_each-IsGood ((k, s) ∷ es) r u h g = elim (Bool-cases (is_idle tick shell grace s)) [
    | inl idle ↦ rw (reap_each_idle k s es r idle) (
        reap_each-IsGood es (expire k s r) u.1
          (unfold expire drop_session in (AllHere-erase k es r.2.table.sessions u.0 h.1))
          (expire-IsGood k s r g h.0))
    | inr busy ↦ rw (reap_each_busy k s es r busy) (reap_each-IsGood es r u.1 h.1 g)
  ]

  reap_each-lookup :
      (j : ℕ) (es : List (ℕ × Session)) (r : List ℕ × Registry A × Sessions)
      → IsKeyed es
      → lookup j (reap_each tick shell grace es r).2.table.sessions
        ≡ (if idle_one tick shell grace (lookup j es) then none else lookup j r.2.table.sessions)
  unfolding lookup IsKeyed
  reap_each-lookup j [] r u = unfold reap_each in refl
  reap_each-lookup j ((k, s) ∷ es) r u = elim (Bool-cases (is_idle tick shell grace s)) [
    | inl idle ↦
        ap (λ (x : List ℕ × Registry A × Sessions). lookup j x.2.table.sessions)
          (reap_each_idle k s es r idle)
        ∙ reap_each-lookup j es (expire k s r) u.1
        ∙ elim (Bool-cases (k == j)) [
          | inl same ↦
              let none_left : lookup j es ≡ none =
                subst (λ (i : ℕ). lookup i es ≡ none) (==→eq k j same) u.0 in
              rw (none_left, same, idle)
                (unfold expire drop_session in (lookup-erase k j r.2.table.sessions ∙ rw same refl))
          | inr other ↦
              rw other
                (unfold expire drop_session in rw (lookup-erase k j r.2.table.sessions, other) refl)
        ]
    | inr busy ↦
        ap (λ (x : List ℕ × Registry A × Sessions). lookup j x.2.table.sessions)
          (reap_each_busy k s es r busy)
        ∙ reap_each-lookup j es r u.1
        ∙ elim (Bool-cases (k == j)) [
          | inl same ↦
              let none_left : lookup j es ≡ none =
                subst (λ (i : ℕ). lookup i es ≡ none) (==→eq k j same) u.0 in
              rw (none_left, same, busy) refl
          | inr other ↦ rw other refl
        ]
  ]

AllHere-self :
    (es d : List (ℕ × Session))
    → IsKeyed es
    → ((k : ℕ) (s : Session) → lookup k es ≡ some s → lookup k d ≡ some s)
    → AllHere es d
unfolding AllHere IsKeyed lookup
AllHere-self [] d u h = tt
AllHere-self ((k, s) ∷ es) d u h = (
  h k s (rw (==_refl k) refl),
  AllHere-self es d u.1 (λ j x e. h j x (elim (eq_cases k j) [
    | inl same ↦ absurd (ground (arith, u.0, e, ap (λ (i : ℕ). lookup i es) same))
    | inr other ↦ rw (ne→== _ _ other) e
  ])),
)

pub reap-IsGood :
    {A : Type 0} (tick shell grace : ℕ) (world : Registry A) (st : Sessions)
    → IsGood st
    → IsGood (reap tick shell grace world st).2
unfolding reap
reap-IsGood tick shell grace world st g =
    same_table (reap_each tick shell grace st.table.sessions ([], world, st)).2 _ refl (
      reap_each-IsGood tick shell grace st.table.sessions ([], world, st) g.sound.keyed
        (AllHere-self st.table.sessions st.table.sessions g.sound.keyed (λ k s e. e)) g)

-- After a reap of sessions in good order, an endpoint has the session that it had, as it was,
-- unless that session was idle for longer than its timeout; then it has none.
pub reap-lookup :
    {A : Type 0} (tick shell grace : ℕ) (world : Registry A) (st : Sessions) (k : ℕ)
    → IsGood st
    → lookup k (reap tick shell grace world st).2.table.sessions ≡ (
        if idle_one tick shell grace (lookup k st.table.sessions)
        then none
        else lookup k st.table.sessions)
unfolding reap
reap-lookup tick shell grace world st k g =
    reap_each-lookup tick shell grace k st.table.sessions ([], world, st) g.sound.keyed
