-- ===== src/Server/Sessions/Awake.antt =====
-- A server that does not wait for commanders has no session that waits for one.
use deepspace_outpost_dx.Base.{
  leb, ◌==◌, Bool-cases, Option-cases, drop, lookup, ℕ, ◌≡◌, refl, sym, ap, subst, ◌∙◌, inl, inr,
  false, ◌||◌, List, [], ◌∷◌,
}
use deepspace_outpost_dx.Endpoint.{peek_reliable_token}
use deepspace_outpost_dx.Ecs.Registry.{Registry, is_valid}
use deepspace_outpost_dx.Server.{NetEndpoint, endpoint_key}
use deepspace_outpost_dx.Server.Table.Every.{
  Every, Every-insert, Every-erase, Every-session_or, resolve-Every,
}
use deepspace_outpost_dx.Server.Table.Route.{}
use deepspace_outpost_dx.Server.Limit.{rate_limited}
use deepspace_outpost_dx.Server.Sessions.{
  unauth_limits, max_inputs_per_tick, Session, new_session, is_live, Sessions, seen, moved,
  authenticate, at_key, write_session, InputCommand, open_tick, input_at, on_input, on_front_door,
  on_tokened, on_reliable,
}
use deepspace_outpost_dx.Server.Sessions.Good.{token_of, IsGood}
use deepspace_outpost_dx.Messages.{}
use deepspace_outpost_dx.Messages.Defs.{}
use deepspace_outpost_dx.Messages.Defs.Player.{}
use deepspace_outpost_dx.Server.Table.{Table, session_or, put_session, grant, drop_session}
use deepspace_outpost_dx.Server.Table.Laws.{}
use deepspace_outpost_dx.Server.Sessions.Name.{sanitize_name, apply_name}
use deepspace_outpost_dx.Server.Sessions.Hello.{
  protocol_version, ClientHello, tell, Ship, accept, on_hello, spawn_loaded,
}
use deepspace_outpost_dx.Server.Sessions.Spawn.{accept-table}
use deepspace_outpost_dx.Server.Table.Keyed.{}
use deepspace_outpost_dx.Server.Sessions.Reap.{is_idle, expire, reap_each, reap}
use deepspace_outpost_dx.Server.Sessions.Front.{apply_name_to-IsLike, at_key-write}
use deepspace_outpost_dx.Server.Sessions.Sweep.{reap_each_idle, reap_each_busy}
use deepspace_outpost_dx.Server.Sessions.Datagram.{input-IsLike}

abbrev pub IsAwake : Sessions → Type 0
IsAwake st = Every (λ (s : Session). s.loading ≡ false) st.table.sessions

pub at_key-IsAwake : (k : ℕ) (st : Sessions) → IsAwake st → (at_key k st).loading ≡ false
at_key-IsAwake k st h =
    Every-session_or (λ (s : Session). s.loading ≡ false) new_session k st.table refl h

write_session-IsAwake :
    (k : ℕ) (s : Session) (st : Sessions)
    → IsAwake st
    → s.loading ≡ (at_key k st).loading
    → IsAwake (write_session k s st)
unfolding put_session
write_session-IsAwake k s st h e =
    Every-insert (λ (x : Session). x.loading ≡ false) k s st.table.sessions
      (e ∙ at_key-IsAwake k st h) h

authenticate-IsAwake :
    (ep : NetEndpoint) (token tick : ℕ) (st : Sessions)
    → IsGood st
    → IsAwake st
    → IsAwake (authenticate ep token tick st).1
unfolding authenticate
authenticate-IsAwake ep token tick st g h =
    resolve-Every (λ (s : Session). s.loading ≡ false) token_of (seen tick) (moved ep tick)
      (endpoint_key ep) token st.table (λ s e. e) (λ s e. e) g.sound h

input_at-IsAwake :
    {A : Type 0} (world : Registry A) (k : ℕ) (input : InputCommand) (tick : ℕ) (st : Sessions)
    → IsAwake st
    → IsAwake (input_at world k input tick st).1
unfolding input_at
input_at-IsAwake world k input tick st h =
    let (opened, applied) = input-IsLike input tick (at_key k st) in
    elim (Bool-cases (is_valid (at_key k st).entity world)) [
      | inr gone ↦ rw (gone, input_at) h
      | inl here ↦
          elim (Bool-cases
            (leb max_inputs_per_tick (open_tick tick (at_key k st)).inputs_this_window)) [
              | inl full ↦ rw (here, full, input_at) (write_session-IsAwake k _ st h opened.loading)
              | inr room ↦
                  rw (here, room, input_at) (write_session-IsAwake k _ st h applied.loading)
            ]
    ]

pub on_input-IsAwake :
    {A : Type 0} (world : Registry A) (ep : NetEndpoint) (token : ℕ) (input : InputCommand)
    (tick : ℕ) (st : Sessions)
    → IsGood st
    → IsAwake st
    → IsAwake (on_input world ep token input tick st).1
unfolding on_input
on_input-IsAwake world ep token input tick st g h =
    let after = authenticate-IsAwake ep token tick st g h in
    elim (Option-cases (authenticate ep token tick st).0) [
      | inl unknown ↦ rw (unknown, on_input) after
      | inr (k, found) ↦ rw (found, on_input) (input_at-IsAwake world k input tick _ after)
    ]

on_front_door-IsAwake :
    (ep : NetEndpoint) (bytes : List ℕ) (tick : ℕ) (st : Sessions)
    → IsAwake st
    → IsAwake (on_front_door ep bytes tick st)
unfolding on_front_door
on_front_door-IsAwake ep bytes tick st h =
    let k = endpoint_key ep in
    let (drop, rate) = rate_limited unauth_limits k tick st.rate in
    let charged : Sessions = record st { rate = rate } in
    elim (Bool-cases (drop || is_live (at_key k st))) [
      | inl closed ↦ rw (closed, on_front_door) h
      | inr open_door ↦ rw (open_door, on_front_door) (write_session-IsAwake k _ charged h refl)
    ]

on_tokened-IsAwake :
    (ep : NetEndpoint) (token : ℕ) (bytes : List ℕ) (tick : ℕ) (st : Sessions)
    → IsGood st
    → IsAwake st
    → IsAwake (on_tokened ep token bytes tick st)
unfolding on_tokened
on_tokened-IsAwake ep token bytes tick st g h =
    let after = authenticate-IsAwake ep token tick st g h in
    elim (Option-cases (authenticate ep token tick st).0) [
      | inl unknown ↦ rw (unknown, on_tokened) after
      | inr (k, found) ↦
          rw (found, on_tokened)
            (write_session-IsAwake k _ (authenticate ep token tick st).1 after refl)
    ]

pub on_reliable-IsAwake :
    (ep : NetEndpoint) (bytes : List ℕ) (tick : ℕ) (st : Sessions)
    → IsGood st
    → IsAwake st
    → IsAwake (on_reliable ep bytes tick st)
unfolding on_reliable
on_reliable-IsAwake ep bytes tick st g h = elim (Bool-cases (peek_reliable_token bytes == 0)) [
  | inl bare ↦ rw (bare, on_reliable) (on_front_door-IsAwake ep bytes tick st h)
  | inr tokened ↦
      rw (tokened, on_reliable)
        (on_tokened-IsAwake ep (peek_reliable_token bytes) bytes tick st g h)
]

pub apply_name-IsAwake :
    (ep : NetEndpoint) (raw : List ℕ) (st : Sessions)
    → IsAwake st
    → IsAwake (apply_name ep raw st).1
unfolding apply_name
apply_name-IsAwake ep raw st h = elim (Option-cases (lookup (endpoint_key ep) st.table.sessions)) [
  | inl missing ↦ rw (missing, apply_name) h
  | inr (s, here) ↦
      rw (here, apply_name)
        (write_session-IsAwake (endpoint_key ep) _ st h (
          unfold session_or in
          rw (here, session_or)
            (apply_name_to-IsLike s (endpoint_key ep) raw st.table.sessions).loading))
]

module _ {A : Type 0} (ship : Ship A) where
  accept-IsAwake :
      (k drawn : ℕ) (clean : List ℕ) (s : Session) (st : Sessions) (world : Registry A)
      → s.loading ≡ false
      → IsAwake st
      → IsAwake (accept ship k drawn clean s st world).1
  accept-IsAwake k drawn clean s st world awake h =
      let (s', table, own, sleep, hull) = accept-table ship k drawn clean s st world in
      subst (λ (t : Table Session). Every (λ (x : Session). x.loading ≡ false) t.sessions)
        (sym table)
        (unfold grant in
          Every-insert (λ (x : Session). x.loading ≡ false) k s' st.table.sessions (sleep ∙ awake)
            h)

  -- A hello that is not deferred parks no session.
  pub on_hello-IsAwake :
      (ep : NetEndpoint) (hello : ClientHello) (tick drawn : ℕ) (st : Sessions) (world : Registry A)
      → IsAwake st
      → IsAwake (on_hello ship ep hello tick false drawn st world).1
  unfolding on_hello
  on_hello-IsAwake ep hello tick drawn st world h =
      let k = endpoint_key ep in
      let s : Session = moved ep tick (at_key k st) in
      let here : Sessions = write_session k s st in
      let h' : IsAwake here = write_session-IsAwake k s st h refl in
      elim (Bool-cases (hello.version == protocol_version)) [
        | inr old ↦ rw (old, on_hello) (write_session-IsAwake k _ st h (unfold tell in refl))
        | inl same ↦ elim (Bool-cases (is_live s)) [
          | inl live ↦
              rw (same, live, on_hello)
                (write_session-IsAwake k _ here h' (
                  unfold tell in
                  (apply_name_to-IsLike s k hello.commander_name here.table.sessions).loading
                  ∙ ap (λ (x : Session). x.loading) (sym (at_key-write k s st))))
          | inr shell ↦
              rw (same, shell, on_hello)
                (accept-IsAwake k drawn (sanitize_name hello.commander_name) s here world
                  (at_key-IsAwake k st h) h')
        ]
      ]

  -- Where nobody waits there is nobody to load.
  pub spawn_loaded-IsAwake :
      (ep : NetEndpoint) (tick drawn : ℕ) (st : Sessions) (world : Registry A)
      → IsAwake st
      → IsAwake (spawn_loaded ship ep tick drawn st world).1
  unfolding spawn_loaded
  spawn_loaded-IsAwake ep tick drawn st world h =
      elim (Option-cases (lookup (endpoint_key ep) st.table.sessions)) [
        | inl missing ↦ rw (missing, spawn_loaded) h
        | inr (s, here) ↦ rw (here, h (endpoint_key ep) s here, spawn_loaded) h
      ]

module _ {A : Type 0} (tick shell grace : ℕ) where
  reap_each-IsAwake :
      (es : List (ℕ × Session)) (r : List ℕ × Registry A × Sessions)
      → IsAwake r.2
      → IsAwake (reap_each tick shell grace es r).2
  unfolding reap_each
  reap_each-IsAwake [] r h = h
  reap_each-IsAwake ((k, s) ∷ es) r h = elim (Bool-cases (is_idle tick shell grace s)) [
    | inl idle ↦ rw (reap_each_idle tick shell grace k s es r idle) (
        reap_each-IsAwake es (expire k s r) (
          unfold expire drop_session in
          (Every-erase (λ (x : Session). x.loading ≡ false) k r.2.table.sessions h)))
    | inr busy ↦ rw (reap_each_busy tick shell grace k s es r busy) (reap_each-IsAwake es r h)
  ]

  pub reap-IsAwake :
      (world : Registry A) (st : Sessions) → IsAwake st → IsAwake (reap tick shell grace world st).2
  unfolding reap
  reap-IsAwake world st h = reap_each-IsAwake st.table.sessions ([], world, st) h
