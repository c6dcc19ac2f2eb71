-- ===== src/Server/Table/Every.antt =====
-- What holds of every session of a table.
use deepspace_outpost_dx.Base.{
  eq_cases, Option-cases, lookup, insert, erase, lookup-insert, lookup-erase, ℕ, ◌≡◌, refl, subst,
  inl, inr, Option, some, List, arith,
}
use deepspace_outpost_dx.Server.Table.{Table, session_or, put_session, rehome, resolve}
use deepspace_outpost_dx.Server.Table.Laws.{held, IsSound}
use deepspace_outpost_dx.Server.Table.Route.{
  Resolution, missed, stayed, rehomed, resolve-Resolution,
}

module _ {S : Type 0} (P : S → Type 0) where
  abbrev pub Every : List (ℕ × S) → Type 0
  Every d = (k : ℕ) (s : S) → lookup k d ≡ some s → P s

  pub Every-insert : (k : ℕ) (s : S) (d : List (ℕ × S)) → P s → Every d → Every (insert k s d)
  Every-insert k s d p h j r e = elim (eq_cases k j) [
    | inl same ↦ subst P (ground (arith, lookup-insert k j s d)) p
    | inr other ↦ h j r (ground (arith, lookup-insert k j s d))
  ]

  pub Every-erase : (k : ℕ) (d : List (ℕ × S)) → Every d → Every (erase k d)
  Every-erase k d h j r e = h j r (ground (arith, lookup-erase k j d))

  -- What is found under a key, and what stands in for it when nothing is.
  pub Every-session_or :
      (fresh : S) (k : ℕ) (t : Table S) → P fresh → Every t.sessions → P (session_or fresh k t)
  unfolding session_or
  Every-session_or fresh k t p h = elim (Option-cases (lookup k t.sessions)) [
    | inl none_here ↦ rw (none_here, session_or) p
    | inr (s, here) ↦ rw (here, session_or) (h k s here)
  ]

  module _ (token_of : S → ℕ) (seen moved : S → S) where
    Resolution-Every :
        (new_key token : ℕ) (t : Table S) (r : Option ℕ × Table S)
        → ((s : S) → P s → P (seen s))
        → ((s : S) → P s → P (moved s))
        → Resolution token_of seen moved new_key token t r
        → Every t.sessions
        → Every r.1.sessions
    Resolution-Every new_key token t r ps pm missed h = h
    Resolution-Every new_key token t r ps pm (stayed s here own real) h =
        unfold put_session in (Every-insert new_key (seen s) t.sessions (ps s (h new_key s here)) h)
    Resolution-Every new_key token t r ps pm (rehomed k s here own real at free) h =
        unfold rehome in
        (Every-insert new_key (moved s) (erase k t.sessions) (pm s (h k s here))
          (Every-erase k t.sessions h))

    pub resolve-Every :
        (new_key token : ℕ) (t : Table S)
        → ((s : S) → P s → P (seen s))
        → ((s : S) → P s → P (moved s))
        → IsSound token_of t
        → Every t.sessions
        → Every (resolve seen moved new_key token t).1.sessions
    resolve-Every new_key token t ps pm g =
        Resolution-Every new_key token t _ ps pm
          (resolve-Resolution token_of seen moved new_key token t g)

pub session_or-held :
    {S : Type 0} (token_of : S → ℕ) (fresh : S) (k : ℕ) (t : Table S)
    → token_of fresh ≡ 0
    → token_of (session_or fresh k t) ≡ held token_of k t.sessions
unfolding session_or held
session_or-held token_of fresh k t e = elim (Option-cases (lookup k t.sessions)) [
  | inl none_here ↦ rw (none_here, session_or) e
  | inr (s, here) ↦ rw (here, session_or) refl
]
