-- ===== src/Server/Sessions/Spawn.antt =====
-- The handshake keeps the invariant of the sessions.
use deepspace_outpost_dx.Base.{
  ◌==◌, Bool-cases, Option-cases, length, set, lookup, ℕ, ◌+◌, ◌%◌, ◌^◌, ◌<◌, ◌≡◌, refl, sym, ap₂,
  subst, ◌∙◌, ◌≢◌, inl, inr, false, none, List, arith,
}
use deepspace_outpost_dx.Ecs.Registry.{Registry, create, is_valid}
use deepspace_outpost_dx.Ecs.Registry.Handles
use deepspace_outpost_dx.Ecs.Pool.{invalid_index}
use deepspace_outpost_dx.Messages.Defs.Player.{hello_ack}
use deepspace_outpost_dx.Server.{NetEndpoint, endpoint_key}
use deepspace_outpost_dx.Server.Table.{grant}
use deepspace_outpost_dx.Server.Table.Laws.{held, held-some, IsSound-grant}
use deepspace_outpost_dx.Server.Table.Every.{Every-insert}
use deepspace_outpost_dx.Server.Sessions.{Session, is_live, Sessions}
use deepspace_outpost_dx.Server.Sessions.Name.{spawn_name}
use deepspace_outpost_dx.Server.Sessions.Hello.{
  tell, ack_of, next_token, Ship, spawn_player, accept, spawn_loaded,
}
use deepspace_outpost_dx.Server.Sessions.Good.{token_of, IsFit, IsGood, same_table}

-- The next token is real, and no session has it.
pub record IsFresh (drawn : ℕ) (st : Sessions) : Type 0 where
  pub real : (next_token drawn st).0 ≢ 0
  pub unused : lookup (next_token drawn st).0 st.table.by_token ≡ none

next_token_drawn :
    (drawn : ℕ) (st : Sessions) → (drawn == 0) ≡ false → next_token drawn st ≡ (drawn, st)
unfolding next_token
next_token_drawn drawn st e = rw e refl

next_token-table : (drawn : ℕ) (st : Sessions) → (next_token drawn st).1.table ≡ st.table
unfolding next_token
next_token-table drawn st = elim (Bool-cases (drawn == 0)) [
  | inl unset ↦ rw (unset, next_token) refl
  | inr set ↦ rw (set, next_token) refl
]

pub next_token_same :
    (drawn : ℕ) (st st' : Sessions)
    → st'.token_counter ≡ st.token_counter
    → (next_token drawn st').0 ≡ (next_token drawn st).0
unfolding next_token
next_token_same drawn st st' e = elim (Bool-cases (drawn == 0)) [
  | inl unset ↦ rw (unset, next_token, e) refl
  | inr set ↦ rw (set, next_token) refl
]

-- A sound world with a slot to spare.
pub record HasRoom {A : Type 0} (world : Registry A) : Type 0 where
  pub sound : Handles.IsSound world
  pub room : length world.generations + 1 < invalid_index

create_index :
    {A : Type 0} (world : Registry A) → HasRoom world → (create world).0.index ≢ invalid_index
create_index world h = unfold is_valid in ground (arith, made.sound.small, made.now_good)
  where
    made : Handles.Creates world (create world).0 (create world).1
    made = Handles.create-Creates world h.sound h.room

module _ {A : Type 0} (ship : Ship A) where
  -- What `accept` writes: a session with the token, which is live only if its entity is.
  pub accept-table :
      (k drawn : ℕ) (clean : List ℕ) (s : Session) (st : Sessions) (world : Registry A)
      → (s' : Session) × ((accept ship k drawn clean s st world).1.table
          ≡ grant k (next_token drawn st).0 s' st.table)
        × (s'.token ≡ (next_token drawn st).0)
        × (s'.loading ≡ s.loading)
        × (s'.entity.index ≡ (create world).0.index)
  unfolding accept spawn_player tell
  accept-table k drawn clean s st world =
      let (e, st₁, w) =
        spawn_player ship st.next_player_id
          (record st { next_player_id = (st.next_player_id + 1) % 2 ^ 32 }) world in
      let same = next_token_same drawn st st₁ refl in
      let s' : Session = record s {
        player_id = st.next_player_id;
        entity = e;
        name = spawn_name clean e.index k st.table.sessions;
        token = (next_token drawn st₁).0;
      } in
      (
        tell hello_ack (ack_of s') s',
        ap₂ (λ token t. grant k token (tell hello_ack (ack_of s') s') t) same
            (next_token-table drawn st₁),
        same,
        refl,
        refl,
      )

  pub accept-IsGood :
      (k drawn : ℕ) (clean : List ℕ) (s : Session) (st : Sessions) (world : Registry A)
      → IsGood st
      → IsFresh drawn st
      → held token_of k st.table.sessions ≡ 0
      → s.loading ≡ false
      → HasRoom world
      → IsGood (accept ship k drawn clean s st world).1
  accept-IsGood k drawn clean s st world g f bare awake h =
      let (s', table, own, sleep, hull) = accept-table k drawn clean s st world in
      same_table (record st { table = grant k (next_token drawn st).0 s' st.table }) _ table
        (record {
          sound =
              IsSound-grant token_of k (next_token drawn st).0 s' st.table g.sound own f.real bare
                f.unused;
          fit =
              unfold grant in
              (Every-insert IsFit k s' st.table.sessions
                (record {
                  live_known = λ e. subst (λ (n : ℕ). n ≢ 0) (sym own) f.real;
                  known_live = λ e. unfold is_live in ground (arith, hull, create_index world h);
                  parked = λ e. cc;
                })
                g.fit);
        })

  -- A waiting session has no token, and a session without a token is not live.
  pub spawn_loaded-IsGood :
      (ep : NetEndpoint) (tick drawn : ℕ) (st : Sessions) (world : Registry A)
      → IsGood st
      → IsFresh drawn st
      → HasRoom world
      → IsGood (spawn_loaded ship ep tick drawn st world).1
  unfolding spawn_loaded
  spawn_loaded-IsGood ep tick drawn st world g f h =
      elim (Option-cases (lookup (endpoint_key ep) st.table.sessions)) [
        | inl missing ↦ rw (missing, spawn_loaded) g
        | inr (s, here) ↦ elim (Bool-cases s.loading) [
          | inr awake ↦ rw (here, awake, spawn_loaded) g
          | inl waits ↦
              rw (here, waits, spawn_loaded)
                (accept-IsGood (endpoint_key ep) drawn s.name
                  (record s { loading = false; last_seen_tick = tick }) st world g f
                  (held-some token_of (endpoint_key ep) st.table.sessions s here
                    ∙ (g.fit _ s here).parked waits)
                  refl h)
        ]
      ]
