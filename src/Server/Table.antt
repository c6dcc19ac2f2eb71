-- ===== src/Server/Table.antt =====
-- The two maps that ServerSessions and AdminChannel share the shape of: the sessions by the key of
-- their endpoint, and the keys by session token. `Authenticate` is `resolve`.
pub mod Keyed
pub mod Laws
pub mod Route
pub mod Every
use deepspace_outpost_dx.Base.{
  ◌==◌, if◌then◌else◌, lookup, insert, erase, ℕ, Bool, true, false, Option, none, some, List, [],
}

pub record Table (S : Type 0) : Type 0 where
  pub sessions : List (ℕ × S)
  pub by_token : List (ℕ × ℕ)

module _ {S : Type 0} where
  abbrev pub empty_table : Table S
  empty_table = record { sessions = []; by_token = [] }

  abbrev pub is_some : Option S → Bool
  is_some none = false
  is_some (some s) = true

  -- `try_emplace`: the session under the key, a new one when there is none.
  unfoldable pub session_or : S → ℕ → Table S → S
  session_or fresh k t = elim (lookup k t.sessions) [ none ↦ fresh | some s ↦ s ]

  unfoldable pub put_session : ℕ → S → Table S → Table S
  put_session k s t = record t { sessions = insert k s t.sessions }

  -- Giving a session a token it has not had: `s` is the session with the token in it.
  unfoldable pub grant : ℕ → ℕ → S → Table S → Table S
  grant k token s t = record {
    sessions = insert k s t.sessions;
    by_token = insert token k t.by_token;
  }

  unfoldable pub heal : ℕ → Table S → Table S
  heal token t = record t { by_token = erase token t.by_token }

  -- `extract`, `insert` under the new key, and the token pointed at it.
  unfoldable pub rehome : ℕ → ℕ → ℕ → S → Table S → Table S
  rehome old_key new_key token s t = record {
    sessions = insert new_key s (erase old_key t.sessions);
    by_token = insert token new_key t.by_token;
  }

  -- The key of the session that is found (the pointer the code returns), and the maps as they are
  -- left. `seen` and `moved` write the session's fields on a hit under the same and a new endpoint.
  unfoldable pub resolve_at : (S → S) → (S → S) → ℕ → ℕ → ℕ → Table S → Option ℕ × Table S
  resolve_at seen moved new_key token key t =
      if key == new_key
      then elim (lookup new_key t.sessions) [
        | none ↦ (none, heal token t)
        | some s ↦ (some new_key, put_session new_key (seen s) t)
      ]
      else if is_some (lookup new_key t.sessions)
      then (none, t)
      else elim (lookup key t.sessions) [
        | none ↦ (none, heal token t)
        | some s ↦ (some new_key, rehome key new_key token (moved s) t)
      ]

  unfoldable pub resolve : (S → S) → (S → S) → ℕ → ℕ → Table S → Option ℕ × Table S
  resolve seen moved new_key token t =
      if token == 0 then (none, t) else elim (lookup token t.by_token) [
        | none ↦ (none, t)
        | some key ↦ resolve_at seen moved new_key token key t
      ]

  -- Erasing a session, and its token with it when it has one.
  unfoldable pub drop_session : ℕ → ℕ → Table S → Table S
  drop_session k token t = record {
    sessions = erase k t.sessions;
    by_token = if token == 0 then t.by_token else erase token t.by_token;
  }
