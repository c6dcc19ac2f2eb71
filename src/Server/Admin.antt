-- ===== src/Server/Admin.antt =====
-- NeuronServer/AdminChannel.h: the managers' channel.
pub mod Key
pub mod Hello
pub mod Good
mod Tests
use deepspace_outpost_dx.Base.{
  leb, ◌==◌, if◌then◌else◌, Bool-cases, length, drop, length-append, insert, erase, ℕ, ◌+◌, ◌-◌,
  ◌%◌, ◌^◌, ◌≤◌, ◌≡◌, refl, inl, inr, Bool, not, Option, some, List, [], ◌∷◌, ◌++◌, arith,
}
use deepspace_outpost_dx.Endpoint.{Endpoint, initial_endpoint}
use deepspace_outpost_dx.Endpoint
use deepspace_outpost_dx.Messages.{Value}
use deepspace_outpost_dx.Messages.Defs.{Message, send}
use deepspace_outpost_dx.Messages.Defs.Admin.{
  admin_player_info, admin_player_gone, admin_event, admin_health,
}
use deepspace_outpost_dx.Server.{NetEndpoint}
use deepspace_outpost_dx.Server.Table.{Table}
use deepspace_outpost_dx.Server.Limit.{RateInfo, Limits}

abbrev pub admin_event_ring : ℕ
admin_event_ring = 256

abbrev pub max_admin_sessions : ℕ
max_admin_sessions = 4

abbrev pub admin_timeout_ticks : ℕ
admin_timeout_ticks = 900

abbrev pub admin_pending_ticks : ℕ
admin_pending_ticks = 300

abbrev pub admin_limits : Limits
admin_limits = record { window = 30; most = 60; mute = 1800 }

abbrev pub admin_max_key_failures : ℕ
admin_max_key_failures = 5

pub record AdminSession : Type 0 where
  pub endpoint : NetEndpoint
  pub token : ℕ
  pub events : Endpoint.Endpoint
  pub last_seen_tick : ℕ

abbrev pub new_admin : AdminSession
new_admin = record {
  endpoint = record { address = 0; port = 0 };
  token = 0;
  events = initial_endpoint;
  last_seen_tick = 0;
}

unfoldable pub is_live_admin : AdminSession → Bool
is_live_admin s = not (s.token == 0)

-- `m_identity` without the fields that are filled in on acceptance.
pub record Identity : Type 0 where
  pub game_logic_version : ℕ
  pub tick_rate_ms : ℕ
  pub game_port : ℕ

abbrev pub Event : Type 0
Event = Value admin_event.fields

abbrev pub PlayerRow : Type 0
PlayerRow = Value admin_player_info.fields

abbrev pub Health : Type 0
Health = Value admin_health.fields

-- `m_sessions` and `m_byToken` are the table; the front of the ring is the head of the list.
pub record AdminChannel : Type 0 where
  pub key : List ℕ
  pub token_counter : ℕ
  pub identity : Identity
  pub table : Table AdminSession
  pub rate : List (ℕ × RateInfo)
  pub ring : List Event
  pub event_seq : ℕ
  pub roster : List (ℕ × PlayerRow)
  pub last_health : Option Health

abbrev set_identity : Identity → AdminChannel → AdminChannel
set_identity i c = record c { identity = i }

unfoldable pub tell_admin : (m : Message) → Value m.fields → AdminSession → AdminSession
tell_admin m v s = record s { events = send m v s.events }

-- The loop over the sessions that tells the live ones.
unfoldable pub tell_live :
    (m : Message) → Value m.fields → List (ℕ × AdminSession) → List (ℕ × AdminSession)
tell_live m v [] = []
tell_live m v ((k, s) ∷ es) =
    (k, if is_live_admin s then tell_admin m v s else s) ∷ tell_live m v es

abbrev pub tell_all : (m : Message) → Value m.fields → AdminChannel → AdminChannel
tell_all m v c = record c { table = record c.table { sessions = tell_live m v c.table.sessions } }

unfoldable pub push_ring : Event → List Event → List Event
push_ring ev ring =
    let kept = if leb admin_event_ring (length ring) then drop 1 ring else ring in kept ++ ev ∷ []

unfoldable pub push_event : ℕ → ℕ → ℕ → List ℕ → AdminChannel → AdminChannel
push_event tick kind subject line c =
    let seq = (c.event_seq + 1) % 2 ^ 32 in
    let ev : Event = (seq, (tick, (kind, (subject, (line, tt))))) in
    tell_all admin_event ev (record c { event_seq = seq; ring = push_ring ev c.ring })

unfoldable pub push_roster : PlayerRow → AdminChannel → AdminChannel
push_roster row c = tell_all admin_player_info row (record c { roster = insert row.0 row c.roster })

unfoldable pub push_player_gone : ℕ → ℕ → AdminChannel → AdminChannel
push_player_gone player_id reason c =
    tell_all admin_player_gone (player_id, (reason, tt))
      (record c { roster = erase player_id c.roster })

unfoldable pub push_health : Health → AdminChannel → AdminChannel
push_health h c = tell_all admin_health h (record c { last_health = some h })

unfoldable pub session_count : List (ℕ × AdminSession) → ℕ
session_count [] = 0
session_count ((k, s) ∷ es) = (if is_live_admin s then 1 else 0) + session_count es

drop_one : {A : Type 0} (xs : List A) → length (drop 1 xs) ≡ length xs - 1
drop_one [] = refl
drop_one (x ∷ xs) = omega arith

-- No more events than the ring takes, whatever is pushed.
pub length-push_ring :
    (ev : Event) (ring : List Event)
    → length ring ≤ admin_event_ring
    → length (push_ring ev ring) ≤ admin_event_ring
unfolding push_ring
length-push_ring ev ring h = elim (Bool-cases (leb admin_event_ring (length ring))) [
  | inl full ↦ rw full (omega (arith, length-append (drop 1 ring) (ev ∷ []), drop_one ring))
  | inr room ↦ rw room (ground (arith, length-append ring (ev ∷ [])))
]
