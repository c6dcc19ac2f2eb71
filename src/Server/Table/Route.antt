-- ===== src/Server/Table/Route.antt =====
-- Which session a datagram with a token reaches, and what it leaves alone.
use deepspace_outpost_dx.Base.{
  ◌==◌, eq→==, ==_refl, ne→==, Bool-cases, eq_cases, Option-cases, lookup, erase, lookup-insert,
  lookup-erase, ℕ, ◌≡◌, refl, sym, ap, subst, ◌∙◌, ◌≢◌, ◌⊎◌, inl, inr, Option, none, some, List,
  arith,
}
use deepspace_outpost_dx.Server.Table.{Table, put_session, rehome, resolve_at, resolve}
use deepspace_outpost_dx.Server.Table.Laws.{
  held, IsSound, held-some, held-none, held-insert, IsSound-put, IsSound-rehome,
}

module _ {S : Type 0} (token_of : S → ℕ) (seen moved : S → S) where
  -- What `resolve` does with a sound table: it leaves it as it is, writes the session that has the
  -- token in its place, or writes it under the new key.
  pub data Resolution (new_key token : ℕ) (t : Table S) : Option ℕ × Table S → Type 0 where
    missed : Resolution new_key token t (none, t)
    stayed :
        (s : S)
        → lookup new_key t.sessions ≡ some s
        → token_of s ≡ token
        → token ≢ 0
        → Resolution new_key token t (some new_key, put_session new_key (seen s) t)
    rehomed :
        (k : ℕ) (s : S)
        → lookup k t.sessions ≡ some s
        → token_of s ≡ token
        → token ≢ 0
        → lookup token t.by_token ≡ some k
        → lookup new_key t.sessions ≡ none
        → Resolution new_key token t (some new_key, rehome k new_key token (moved s) t)

  resolve_at-Resolution :
      (new_key token k : ℕ) (t : Table S)
      → IsSound token_of t
      → lookup token t.by_token ≡ some k
      → Resolution new_key token t (resolve_at seen moved new_key token k t)
  unfolding resolve_at
  resolve_at-Resolution new_key token k t g at =
      let (real, holds) = g.forth token k at in
      elim (Option-cases (lookup k t.sessions)) [
        | inl missing ↦ absurd (real (sym holds ∙ held-none token_of k t.sessions missing))
        | inr (s, here) ↦
            let own : token_of s ≡ token = sym (held-some token_of k t.sessions s here) ∙ holds in
            elim (eq_cases k new_key) [
              | inl same ↦
                  subst (λ (j : ℕ). Resolution j token t (resolve_at seen moved j token k t)) same
                    (unfold resolve_at in rw (==_refl k, here) (stayed s here own real))
              | inr other ↦ elim (Option-cases (lookup new_key t.sessions)) [
                | inl free ↦ rw (ne→== _ _ other, free, here) (rehomed k s here own real at free)
                | inr (r, taken) ↦ rw (ne→== _ _ other, taken) missed
              ]
            ]
      ]

  pub resolve-Resolution :
      (new_key token : ℕ) (t : Table S)
      → IsSound token_of t
      → Resolution new_key token t (resolve seen moved new_key token t)
  unfolding resolve
  resolve-Resolution new_key token t g = elim (Bool-cases (token == 0)) [
    | inl zero_token ↦ rw zero_token missed
    | inr real ↦ elim (Option-cases (lookup token t.by_token)) [
      | inl unknown ↦ rw (real, unknown) missed
      | inr (k, at) ↦ rw (real, at) (resolve_at-Resolution new_key token k t g at)
    ]
  ]

  module _ (seen_same : (s : S) → token_of (seen s) ≡ token_of s)
      (moved_same : (s : S) → token_of (moved s) ≡ token_of s) where
    Resolution-IsSound :
        (new_key token : ℕ) (t : Table S) (r : Option ℕ × Table S)
        → IsSound token_of t
        → Resolution new_key token t r
        → IsSound token_of r.1
    Resolution-IsSound new_key token t r g missed = g
    Resolution-IsSound new_key token t r g (stayed s here own real) =
        IsSound-put token_of new_key (seen s) t g
          (seen_same s ∙ sym (held-some token_of new_key t.sessions s here))
    Resolution-IsSound new_key token t r g (rehomed k s here own real at free) =
        IsSound-rehome token_of k new_key token (moved s) t g (moved_same s ∙ own) at
          (held-none token_of new_key t.sessions free)

    pub resolve-IsSound :
        (new_key token : ℕ) (t : Table S)
        → IsSound token_of t
        → IsSound token_of (resolve seen moved new_key token t).1
    resolve-IsSound new_key token t g =
        Resolution-IsSound new_key token t _ g (resolve-Resolution new_key token t g)

    Resolution-own :
        (new_key token k : ℕ) (t : Table S) (r : Option ℕ × Table S)
        → Resolution new_key token t r
        → r.0 ≡ some k
        → (token ≢ 0) × (k ≡ new_key) × (held token_of k r.1.sessions ≡ token)
    Resolution-own new_key token k t r missed e = cc
    Resolution-own new_key token k t r (stayed s here own real) e = (
      real,
      ground arith,
      unfold put_session in
          ground (arith, held-insert token_of new_key k (seen s) t.sessions, seen_same s),
    )
    Resolution-own new_key token k t r (rehomed j s here own real at free) e = (
      real,
      ground arith,
      unfold rehome in
          ground
            (arith, held-insert token_of new_key k (moved s) (erase j t.sessions), moved_same s),
    )

  same_session :
      (k j : ℕ) (d : List (ℕ × S)) (x s : S)
      → lookup k d ≡ some x
      → lookup j d ≡ some s
      → k ≡ j
      → token_of s ≡ token_of x
  same_session k j d x s here h e = ground (arith, ap (λ (i : ℕ). lookup i d) e)

  Resolution-others :
      (new_key token j : ℕ) (s : S) (t : Table S) (r : Option ℕ × Table S)
      → Resolution new_key token t r
      → lookup j t.sessions ≡ some s
      → token_of s ≢ token
      → lookup j r.1.sessions ≡ some s
  Resolution-others new_key token j s t r missed h other = h
  Resolution-others new_key token j s t r (stayed x here own real) h other =
      unfold put_session in
      (let apart : new_key ≢ j =
          (λ e. other (same_session new_key j t.sessions x s here h e ∙ own)) in
        lookup-insert new_key j (seen x) t.sessions ∙ rw (ne→== _ _ apart) h)
  Resolution-others new_key token j s t r (rehomed k x here own real at free) h other =
      unfold rehome in
      (let apart : new_key ≢ j =
          (λ e. ground (arith, free, h, ap (λ (i : ℕ). lookup i t.sessions) e)) in
        let old : k ≢ j = (λ e. other (same_session k j t.sessions x s here h e ∙ own)) in
        lookup-insert new_key j (moved x) (erase k t.sessions)
        ∙ rw (ne→== _ _ apart) (lookup-erase k j t.sessions ∙ rw (ne→== _ _ old) h))

  -- A session with another token is where it was, as it was.
  pub resolve_others :
      (new_key token j : ℕ) (s : S) (t : Table S)
      → IsSound token_of t
      → lookup j t.sessions ≡ some s
      → token_of s ≢ token
      → lookup j (resolve seen moved new_key token t).1.sessions ≡ some s
  resolve_others new_key token j s t g =
      Resolution-others new_key token j s t _ (resolve-Resolution new_key token t g)

  pub resolve_own :
      ((s : S) → token_of (seen s) ≡ token_of s)
      → ((s : S) → token_of (moved s) ≡ token_of s)
      → (new_key token k : ℕ) (t : Table S) → IsSound token_of t
      → (resolve seen moved new_key token t).0 ≡ some k
      → (token ≢ 0)
        × (k ≡ new_key)
        × (held token_of k (resolve seen moved new_key token t).1.sessions ≡ token)
  resolve_own seen_same moved_same new_key token k t g =
      Resolution-own seen_same moved_same new_key token k t _ (resolve-Resolution new_key token t g)

  -- The session with the token is found under its own key, and under one that no session has.
  pub resolve_reaches :
      (new_key k : ℕ) (t : Table S)
      → IsSound token_of t
      → held token_of k t.sessions ≢ 0
      → (k ≡ new_key) ⊎ (lookup new_key t.sessions ≡ none)
      → (resolve seen moved new_key (held token_of k t.sessions) t).0 ≡ some new_key
  unfolding resolve resolve_at
  resolve_reaches new_key k t g real way = elim (Option-cases (lookup k t.sessions)) [
    | inl missing ↦ absurd (real (held-none token_of k t.sessions missing))
    | inr (s, here) ↦ elim way [
      | inl same ↦
          rw (ne→== _ _ real, g.back k real, eq→== _ _ same)
            (ground (arith, here, ap (λ (i : ℕ). lookup i t.sessions) same))
      | inr free ↦ elim (eq_cases k new_key) [
        | inl same ↦
            rw (ne→== _ _ real, g.back k real, eq→== _ _ same)
              (ground (arith, here, ap (λ (i : ℕ). lookup i t.sessions) same))
        | inr other ↦ rw (ne→== _ _ real, g.back k real, ne→== _ _ other, free, here) refl
      ]
    ]
  ]
