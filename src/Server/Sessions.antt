-- ===== src/Server/Sessions.antt =====
-- GameLogic/ServerSessions.h: the sessions of the game server, and datagrams on their way to one.
-- A session's snapshot encoder is the model of Snapshot/Stream and is no field here; an
-- `unordered_map` is walked in the order in which its keys came.
pub mod Name
pub mod Hello
pub mod Reap
pub mod Good
pub mod Datagram
pub mod Spawn
pub mod Front
pub mod Sweep
pub mod Awake
pub mod Ruin
pub mod Reachable
pub mod Safety
pub mod Rebind
pub mod Budget
pub mod Unique
pub mod Fresh
pub mod Clean
pub mod Roster
pub mod Galaxy
use deepspace_outpost_dx.Base.{
  ltb, leb, ◌==◌, if◌then◌else◌, drop, ℕ, ◌+◌, ◌%◌, ◌^◌, Bool, false, not, ◌||◌, Option, none, some,
  List, [],
}
use deepspace_outpost_dx.Base.Int.{ℤ, pos}
use deepspace_outpost_dx.Endpoint.{Endpoint, initial_endpoint, peek_reliable_token, on_datagram}
use deepspace_outpost_dx.Endpoint
use deepspace_outpost_dx.Ecs.Pool.{invalid_index}
use deepspace_outpost_dx.Ecs.Registry.{EntityId, no_entity, Registry, is_valid}
use deepspace_outpost_dx.Ecs.Ownership
use deepspace_outpost_dx.Game.Chat.{ChatLimiter, new_limiter}
use deepspace_outpost_dx.Server.{NetEndpoint, endpoint_key}
use deepspace_outpost_dx.Server.Table.{Table, empty_table, session_or, put_session, resolve}
use deepspace_outpost_dx.Server.Limit.{RateInfo, Limits, rate_limited}

abbrev pub max_name_len : ℕ
max_name_len = 20

abbrev pub unauth_limits : Limits
unauth_limits = record { window = 30; most = 120; mute = 300 }

abbrev pub max_inputs_per_tick : ℕ
max_inputs_per_tick = 8

pub record Session : Type 0 where
  pub endpoint : NetEndpoint
  pub entity : EntityId
  pub events : Endpoint.Endpoint
  pub name : List ℕ
  pub score : ℤ
  pub token : ℕ
  pub player_id : ℕ
  pub last_input_seq : ℕ
  pub last_seen_tick : ℕ
  pub rtt_ms : ℕ
  pub input_window_tick : ℕ
  pub inputs_this_window : ℕ
  pub chat : ChatLimiter
  pub loading : Bool
  pub acked_snapshot_tick : ℕ

abbrev pub new_session : Session
new_session = record {
  endpoint = record { address = 0; port = 0 };
  entity = no_entity;
  events = initial_endpoint;
  name = [];
  score = pos 0;
  token = 0;
  player_id = 0;
  last_input_seq = 0;
  last_seen_tick = 0;
  rtt_ms = 0;
  input_window_tick = 0;
  inputs_this_window = 0;
  chat = new_limiter;
  loading = false;
  acked_snapshot_tick = 0;
}

unfoldable pub is_live : Session → Bool
is_live s = not (s.entity.index == invalid_index)

-- `m_sessions` and `m_byToken` are the table.
pub record Sessions : Type 0 where
  pub table : Table Session
  pub rate : List (ℕ × RateInfo)
  pub ownership : Ownership.Index
  pub spawn_count : ℕ
  pub next_player_id : ℕ
  pub token_counter : ℕ

abbrev pub no_sessions : Sessions
no_sessions = record {
  table = empty_table;
  rate = [];
  ownership = [];
  spawn_count = 0;
  next_player_id = 1;
  token_counter = 0;
}

abbrev pub seen : ℕ → Session → Session
seen tick s = record s { last_seen_tick = tick }

abbrev pub moved : NetEndpoint → ℕ → Session → Session
moved ep tick s = record s { endpoint = ep; last_seen_tick = tick }

unfoldable pub authenticate : NetEndpoint → ℕ → ℕ → Sessions → Option ℕ × Sessions
authenticate ep token tick st =
    let (found, t) = resolve (seen tick) (moved ep tick) (endpoint_key ep) token st.table in
    (found, record st { table = t })

abbrev pub at_key : ℕ → Sessions → Session
at_key k st = session_or new_session k st.table

abbrev pub write_session : ℕ → Session → Sessions → Sessions
write_session k s st = record st { table = put_session k s st.table }

pub record InputCommand : Type 0 where
  pub sequence : ℕ
  pub ack_snapshot_tick : ℕ

-- A new tick opens a new budget.
unfoldable pub open_tick : ℕ → Session → Session
open_tick tick s =
    if s.input_window_tick == tick
    then s
    else record s { input_window_tick = tick; inputs_this_window = 0 }

unfoldable pub apply_input : InputCommand → Session → Session
apply_input input s =
    let t = record s { inputs_this_window = (s.inputs_this_window + 1) % 2 ^ 16 } in
    if ltb s.last_input_seq input.sequence
    then record t { last_input_seq = input.sequence; acked_snapshot_tick = input.ack_snapshot_tick }
    else t

-- An input on the session that its token has found.
unfoldable pub input_at :
    {A : Type 0} → Registry A → ℕ → InputCommand → ℕ → Sessions → EntityId × Sessions
input_at world k input tick st =
    let s = at_key k st in
    let w = open_tick tick s in
    if not (is_valid s.entity world)
    then (no_entity, st)
    else if leb max_inputs_per_tick w.inputs_this_window
    then (no_entity, write_session k w st)
    else (s.entity, write_session k (apply_input input w) st)

unfoldable pub on_input :
    {A : Type 0} → Registry A → NetEndpoint → ℕ → InputCommand → ℕ → Sessions → EntityId × Sessions
on_input world ep token input tick st =
    let (found, st') = authenticate ep token tick st in
    elim found [ none ↦ (no_entity, st') | some k ↦ input_at world k input tick st' ]

-- What a datagram does to the reliable lanes of a session.
abbrev pub hear : List ℕ → Session → Session
hear bytes s = record s { events = (on_datagram bytes s.events).1 }

-- A datagram without a token: only a session that is not live hears it, a new one if need be.
unfoldable pub on_front_door : NetEndpoint → List ℕ → ℕ → Sessions → Sessions
on_front_door ep bytes tick st =
    let k = endpoint_key ep in
    let (drop, rate) = rate_limited unauth_limits k tick st.rate in
    let charged = record st { rate = rate } in
    if drop || is_live (at_key k st)
    then charged
    else write_session k (hear bytes (moved ep tick (at_key k st))) charged

unfoldable pub on_tokened : NetEndpoint → ℕ → List ℕ → ℕ → Sessions → Sessions
on_tokened ep token bytes tick st =
    let (found, st') = authenticate ep token tick st in
    elim found [ none ↦ st' | some k ↦ write_session k (hear bytes (at_key k st')) st' ]

unfoldable pub on_reliable : NetEndpoint → List ℕ → ℕ → Sessions → Sessions
on_reliable ep bytes tick st =
    let token = peek_reliable_token bytes in
    if token == 0 then on_front_door ep bytes tick st else on_tokened ep token bytes tick st
