-- ===== src/Server/Table/Laws.antt =====
-- The token index and the sessions stay two views of one relation.
use deepspace_outpost_dx.Base.{
  ◌==◌, if◌then◌else◌, eq_cases, lookup, insert, erase, lookup-insert, lookup-erase, ℕ, ◌≡◌, refl,
  ap, ◌≢◌, inl, inr, Option, none, some, List, arith,
}
use deepspace_outpost_dx.Server.Table.Keyed.{IsKeyed, IsKeyed-insert, IsKeyed-erase}
use deepspace_outpost_dx.Server.Table.{Table, put_session, grant, rehome, drop_session}

module _ {S : Type 0} (token_of : S → ℕ) where
  abbrev token_or_zero : Option S → ℕ
  token_or_zero none = 0
  token_or_zero (some s) = token_of s

  -- The token of the session under a key; 0 for a session without one, and where there is none.
  unfoldable pub held : ℕ → List (ℕ × S) → ℕ
  held k d = token_or_zero (lookup k d)

  -- No key stands twice, and a token is indexed exactly when a session has it, under its key.
  pub record IsSound (t : Table S) : Type 0 where
    pub forth :
        (token k : ℕ) → lookup token t.by_token ≡ some k → (token ≢ 0) × (held k t.sessions ≡ token)
    pub keyed : IsKeyed t.sessions
    pub back : (k : ℕ) → held k t.sessions ≢ 0 → lookup (held k t.sessions) t.by_token ≡ some k

  -- What is under the key is a session, and the token is its own.
  pub held-some : (k : ℕ) (d : List (ℕ × S)) (s : S) → lookup k d ≡ some s → held k d ≡ token_of s
  unfolding held
  held-some k d s h = rw h refl

  pub held-none : (k : ℕ) (d : List (ℕ × S)) → lookup k d ≡ none → held k d ≡ 0
  unfolding held
  held-none k d h = rw h refl

  pub held-insert :
      (k j : ℕ) (s : S) (d : List (ℕ × S))
      → held j (insert k s d) ≡ (if k == j then token_of s else held j d)
  unfolding held
  held-insert k j s d = ground (arith, lookup-insert k j s d)

  pub held-erase :
      (k j : ℕ) (d : List (ℕ × S)) → held j (erase k d) ≡ (if k == j then 0 else held j d)
  unfolding held
  held-erase k j d = ground (arith, lookup-erase k j d)

  -- Two tables with the same tokens under the same keys.
  IsSound-same :
      (t u : Table S)
      → IsSound t
      → ((k : ℕ) → held k u.sessions ≡ held k t.sessions)
      → u.by_token ≡ t.by_token
      → IsKeyed u.sessions
      → IsSound u
  IsSound-same t u g same e keyed = record {
    keyed = keyed;
    forth = λ token k. rw (same k, e) (g.forth token k);
    back = λ k. rw (same k, e) (g.back k);
  }

  pub IsSound-put :
      (k : ℕ) (s : S) (t : Table S)
      → IsSound t
      → token_of s ≡ held k t.sessions
      → IsSound (put_session k s t)
  unfolding put_session
  IsSound-put k s t g e =
      IsSound-same t (put_session k s t) g
        (λ j. elim (eq_cases k j) [
          | inl same ↦
              ground
                (arith, held-insert k j s t.sessions, e, ap (λ (i : ℕ). held i t.sessions) same)
          | inr other ↦ ground (arith, held-insert k j s t.sessions)
        ])
        refl (IsKeyed-insert k s t.sessions g.keyed)

  -- A token that no session has goes to a session that has none.
  pub IsSound-grant :
      (k token : ℕ) (s : S) (t : Table S)
      → IsSound t
      → token_of s ≡ token
      → token ≢ 0
      → held k t.sessions ≡ 0
      → lookup token t.by_token ≡ none
      → IsSound (grant k token s t)
  unfolding grant
  IsSound-grant k token s t g own real bare fresh = record {
    keyed = IsKeyed-insert k s t.sessions g.keyed;
    forth = λ tok j h. ground (
      arith,
      lookup-insert token tok k t.by_token,
      held-insert k j s t.sessions,
      g.forth tok j,
      g.forth tok k,
      own,
      bare,
    );
    back = λ j h. ground (
      arith,
      held-insert k j s t.sessions,
      lookup-insert token (held j (insert k s t.sessions)) k t.by_token,
      g.back j,
    );
  }

  pub IsSound-rehome :
      (k j token : ℕ) (s : S) (t : Table S)
      → IsSound t
      → token_of s ≡ token
      → lookup token t.by_token ≡ some k
      → held j t.sessions ≡ 0
      → IsSound (rehome k j token s t)
  unfolding rehome
  IsSound-rehome k j token s t g own at bare = record {
    keyed = IsKeyed-insert j s (erase k t.sessions) (IsKeyed-erase k t.sessions g.keyed);
    forth = λ tok i h. ground (
      arith,
      lookup-insert token tok j t.by_token,
      held-insert j i s (erase k t.sessions),
      held-erase k i t.sessions,
      g.forth token k at,
      g.forth tok i,
      own,
      bare,
    );
    back = λ i h. ground (
      arith,
      held-insert j i s (erase k t.sessions),
      held-erase k i t.sessions,
      lookup-insert token (held i (insert j s (erase k t.sessions))) j t.by_token,
      g.back i,
      own,
      at,
    );
  }

  pub IsSound-drop :
      (k : ℕ) (t : Table S) → IsSound t → IsSound (drop_session k (held k t.sessions) t)
  unfolding drop_session
  IsSound-drop k t g = record {
    keyed = IsKeyed-erase k t.sessions g.keyed;
    forth = λ tok i h. ground (
      arith,
      held-erase k i t.sessions,
      lookup-erase (held k t.sessions) tok t.by_token,
      g.forth tok i,
    );
    back = λ i h. ground (
      arith,
      held-erase k i t.sessions,
      lookup-erase (held k t.sessions) (held i (erase k t.sessions)) t.by_token,
      g.back i,
      g.back k,
    );
  }
