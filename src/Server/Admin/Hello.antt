-- ===== src/Server/Admin/Hello.antt =====
-- Managers at the door and on their way to a session: `OnDatagram`, `ProcessPending`, `OnHello`,
-- `AckAndReplay`, `Authenticate`, `NoteKeyFailure` and `WriteDatagrams` of NeuronServer/AdminChannel.h.
use deepspace_outpost_dx.Base.{
  ltb, leb, ◌==◌, if◌then◌else◌, length, lookup, insert, ℕ, zero, suc, ◌+◌, ◌%◌, ◌^◌, Bool, true,
  false, not, ◌||◌, Option, none, some, List, [], ◌∷◌, ◌++◌, map,
}
use deepspace_outpost_dx.Endpoint.{
  bulk, LaneState, Endpoint, peek_reliable_token, send_raw, write_datagrams, on_datagram, receive,
}
use deepspace_outpost_dx.Channel.{ReliableMessage}
use deepspace_outpost_dx.Endpoint
use deepspace_outpost_dx.Messages.{Value}
use deepspace_outpost_dx.Messages.Defs.{Message, raw_message, try_decode}
use deepspace_outpost_dx.Messages.Defs.Admin.{
  admin_hello, admin_hello_ack, admin_hello_reject, admin_player_info, admin_event, admin_health,
}
use deepspace_outpost_dx.Server.{NetEndpoint, endpoint_key}
use deepspace_outpost_dx.Server.Table.{Table, session_or, put_session, grant, resolve, drop_session}
use deepspace_outpost_dx.Server.Limit.{rate_or_new, since, rate_limited, drop_stale}
use deepspace_outpost_dx.Server.Sessions.Hello.{protocol_version}
use deepspace_outpost_dx.Server.Admin.{
  max_admin_sessions, admin_timeout_ticks, admin_pending_ticks, admin_limits,
  admin_max_key_failures, AdminSession, new_admin, is_live_admin, Event, PlayerRow, Health,
  AdminChannel, tell_admin, session_count,
}
use deepspace_outpost_dx.Server.Admin.Key.{key_matches}

abbrev pub admin_seen : ℕ → AdminSession → AdminSession
admin_seen tick s = record s { last_seen_tick = tick }

abbrev pub admin_moved : NetEndpoint → ℕ → AdminSession → AdminSession
admin_moved ep tick s = record s { endpoint = ep; last_seen_tick = tick }

unfoldable pub authenticate_admin : NetEndpoint → ℕ → ℕ → AdminChannel → Option ℕ × AdminChannel
authenticate_admin ep token tick c =
    let (found, t) =
      resolve (admin_seen tick) (admin_moved ep tick) (endpoint_key ep) token c.table in
    (found, record c { table = t })

unfoldable pub next_admin_token : ℕ → AdminChannel → ℕ × AdminChannel
next_admin_token drawn c =
    let n = (c.token_counter + 1) % 2 ^ 64 in
    if drawn == 0
    then ((0xAD3100000000 + n) % 2 ^ 64, record c { token_counter = n })
    else (drawn, c)

unfoldable pub note_key_failure : ℕ → ℕ → AdminChannel → AdminChannel
note_key_failure k tick c =
    let r = rate_or_new (lookup k c.rate) in
    let failures = (r.key_failures + 1) % 2 ^ 16 in
    let left =
      if leb admin_max_key_failures failures
      then record r { key_failures = 0; muted_until = (tick + admin_limits.mute) % 2 ^ 32 }
      else record r { key_failures = failures } in
    record c { rate = insert k left c.rate }

-- One message forced onto the Bulk lane.
abbrev pub replay : (m : Message) → Value m.fields → AdminSession → AdminSession
replay m v s = record s { events = (send_raw bulk (raw_message m v) s.events).1 }

unfoldable pub replay_events : List Event → AdminSession → AdminSession
replay_events [] s = s
replay_events (e ∷ es) s = replay_events es (replay admin_event e s)

unfoldable pub replay_roster : List (ℕ × PlayerRow) → AdminSession → AdminSession
replay_roster [] s = s
replay_roster ((k, row) ∷ rows) s = replay_roster rows (replay admin_player_info row s)

abbrev pub replay_health : Option Health → AdminSession → AdminSession
replay_health none s = s
replay_health (some h) s = replay admin_health h s

unfoldable pub ack_and_replay : ℕ → AdminChannel → AdminSession → AdminSession
ack_and_replay tick c s =
    let i = c.identity in
    let ack : Value admin_hello_ack.fields = (
      s.token,
      (protocol_version, (i.game_logic_version, (i.tick_rate_ms, (tick, (i.game_port, tt))))),
    ) in
    replay_health c.last_health
      (replay_roster c.roster (replay_events c.ring (tell_admin admin_hello_ack ack s)))

abbrev pub put_admin : ℕ → AdminSession → AdminChannel → AdminChannel
put_admin k s c = record c { table = put_session k s c.table }

abbrev pub reject_admin : ℕ → ℕ → AdminSession → AdminChannel → AdminChannel
reject_admin k reason s c = put_admin k (tell_admin admin_hello_reject (reason, tt) s) c

-- The session under the key, seen at the tick, and what the hello does to it.
unfoldable pub accept_admin : ℕ → ℕ → ℕ → AdminSession → AdminChannel → AdminChannel
accept_admin k tick drawn s c =
    let (token, c') = next_admin_token drawn c in
    record c' {
      table = grant k token (ack_and_replay tick c' (record s { token = token })) c'.table;
    }

unfoldable pub on_admin_hello : ℕ → Value admin_hello.fields → ℕ → ℕ → AdminChannel → AdminChannel
on_admin_hello k hello tick drawn c =
    let s = admin_seen tick (session_or new_admin k c.table) in
    if not (hello.0 == protocol_version)
    then reject_admin k 1 s c
    else if not (key_matches c.key hello.1.0)
    then note_key_failure k tick (reject_admin k 2 s c)
    else if is_live_admin s
    then put_admin k (ack_and_replay tick c s) c
    else if leb max_admin_sessions (session_count c.table.sessions)
    then reject_admin k 3 s c
    else accept_admin k tick drawn s c

-- One message that a waiting session has received.
abbrev open_letter : ℕ → ReliableMessage → ℕ → ℕ → AdminChannel → AdminChannel
open_letter k m tick drawn c = elim (try_decode admin_hello m) [
  | none ↦ c
  | some hello ↦ on_admin_hello k hello tick drawn c
]

-- The loops `while (events.Receive(msg))`; the fuel is the number of messages that are ready.
unfoldable pub process_pending : ℕ → ℕ → ℕ → ℕ → AdminChannel → AdminChannel
process_pending zero k tick drawn c = c
process_pending (suc fuel) k tick drawn c =
    let s = session_or new_admin k c.table in
    let (m, events) = receive s.events in
    let c' = put_admin k (record s { events = events }) c in
    elim m [
      | none ↦ c'
      | some letter ↦ process_pending fuel k tick drawn (open_letter k letter tick drawn c')
    ]

unfoldable pub ready_in : List LaneState → ℕ
ready_in [] = 0
ready_in (l ∷ ls) = length l.channel.ready + ready_in ls

unfoldable pub drain : ℕ → Endpoint.Endpoint → Endpoint.Endpoint
drain zero e = e
drain (suc fuel) e = let (m, e') = receive e in elim m [ none ↦ e' | some letter ↦ drain fuel e' ]

abbrev is_enabled : List ℕ → Bool
is_enabled [] = false
is_enabled (c ∷ cs) = true

unfoldable pub admin_front_door : NetEndpoint → List ℕ → ℕ → ℕ → AdminChannel → AdminChannel
admin_front_door ep bytes tick drawn c =
    let k = endpoint_key ep in
    let (muted, rate) = rate_limited admin_limits k tick c.rate in
    let charged = record c { rate = rate } in
    let s = admin_moved ep tick (session_or new_admin k c.table) in
    let (fine, events) = on_datagram bytes s.events in
    let heard = put_admin k (record s { events = events }) charged in
    if muted || is_live_admin (session_or new_admin k c.table)
    then charged
    else if not fine
    then heard
    else process_pending (ready_in events.lanes) k tick drawn heard

unfoldable pub admin_tokened : NetEndpoint → ℕ → List ℕ → ℕ → AdminChannel → AdminChannel
admin_tokened ep token bytes tick c =
    let (found, c') = authenticate_admin ep token tick c in
    elim found [
      | none ↦ c'
      | some k ↦
          let s = session_or new_admin k c'.table in
          let events = (on_datagram bytes s.events).1 in
          put_admin k (record s { events = drain (ready_in events.lanes) events }) c'
    ]

unfoldable pub on_admin_datagram : NetEndpoint → List ℕ → ℕ → ℕ → AdminChannel → AdminChannel
on_admin_datagram ep bytes tick drawn c =
    let token = peek_reliable_token bytes in
    if not (is_enabled c.key)
    then c
    else if token == 0
    then admin_front_door ep bytes tick drawn c
    else admin_tokened ep token bytes tick c

abbrev is_silent : ℕ → AdminSession → Bool
is_silent tick s =
    ltb (if is_live_admin s then admin_timeout_ticks else admin_pending_ticks)
      (since tick s.last_seen_tick)

unfoldable pub reap_admins : ℕ → List (ℕ × AdminSession) → Table AdminSession → Table AdminSession
reap_admins tick [] t = t
reap_admins tick ((k, s) ∷ es) t =
    reap_admins tick es (if is_silent tick s then drop_session k s.token t else t)

-- `MessageEndpoint::WriteDatagrams` with its default size.
abbrev pub max_datagram : ℕ
max_datagram = 1200

unfoldable pub write_admins :
    List (ℕ × AdminSession) → List (NetEndpoint × List ℕ) × List (ℕ × AdminSession)
write_admins [] = ([], [])
write_admins ((k, s) ∷ es) =
    let (out, left) = write_admins es in
    let (datagrams, events) = write_datagrams max_datagram s.events in
    (map (λ d. (s.endpoint, d)) datagrams ++ out, (k, record s { events = events }) ∷ left)

unfoldable pub write_admin_datagrams : ℕ → AdminChannel → List (NetEndpoint × List ℕ) × AdminChannel
write_admin_datagrams tick c =
    let t = reap_admins tick c.table.sessions c.table in
    let (out, sessions) = write_admins t.sessions in
    (
      out,
      record c {
        table = record t { sessions = sessions };
        rate = drop_stale tick admin_pending_ticks c.rate;
      },
    )
