-- ===== src/Server/Tests.antt =====
-- A player who is let in, heard, moved and reaped.
use deepspace_outpost_dx.Base.Int.{pos}
use deepspace_outpost_dx.Base.{
  if◌then◌else◌, length, lookup, insert, ℕ, ◌≤◌, ◌<◌, ◌≡◌, refl, true, false, not, ◌&&◌, none, some,
  List, [], ◌∷◌, arith,
}
use deepspace_outpost_dx.Endpoint.{peek_reliable_token}
use deepspace_outpost_dx.Ecs.Registry.{Registry, empty_registry, create, is_valid, add}
use deepspace_outpost_dx.Ecs.Registry.Handles
use deepspace_outpost_dx.Ecs.Registry
use deepspace_outpost_dx.Wire.{read_u8, read_u16, read_u32, read_u64}
use deepspace_outpost_dx.Server.{NetEndpoint, endpoint_key}
use deepspace_outpost_dx.Server.Table.{session_or, put_session, grant}
use deepspace_outpost_dx.Server.Table.Laws.{held}
use deepspace_outpost_dx.Server.Limit.{new_rate, passed, passed-bounded}
use deepspace_outpost_dx.Server.Sessions.{
  unauth_limits, Session, new_session, is_live, Sessions, no_sessions, moved, authenticate, at_key,
  InputCommand, on_input, on_reliable,
}
use deepspace_outpost_dx.Server.Sessions.Name.{is_taken, unique_name, spawn_name}
use deepspace_outpost_dx.Server.Sessions.Hello.{
  HelloOutcome, ClientHello, tell, next_token, Ship, add_all, spawn_player, accept, on_hello,
}
use deepspace_outpost_dx.Server.Sessions.Reap.{reap}
use deepspace_outpost_dx.Server.Sessions.Good.{token_of, IsGood}
use deepspace_outpost_dx.Server.Sessions.Spawn.{IsFresh, HasRoom}
use deepspace_outpost_dx.Server.Sessions.Reachable.{
  a_hello, Reachable, start, next, Reachable-IsGood,
}
use deepspace_outpost_dx.Server.Sessions.Safety.{on_input_others, on_reliable_others}
use deepspace_outpost_dx.Server.Sessions.Rebind.{authenticate_moves, accept_known}
use deepspace_outpost_dx.Server.Sessions.Sweep.{idle_one, reap-lookup}
use deepspace_outpost_dx.Server.Sessions.Ruin.{is_doomed, is_valid-reap}
use deepspace_outpost_dx.Server.Sessions.Budget.{spent, applied, applied-bounded}
use deepspace_outpost_dx.Server.Sessions.Fresh.{unique_name-free}
use deepspace_outpost_dx.Server.Sessions.Galaxy.{Entry}

abbrev home : NetEndpoint
home = record { address = 1; port = 5 }

abbrev away : NetEndpoint
away = record { address = 2; port = 6 }

-- A ship of numbers, with nothing fitted.
abbrev raft : Ship ℕ
raft = record {
  owner_type = 0;
  owner = λ p. p;
  transform_type = 1;
  transform = λ x y z. 0;
  outfit = [];
}

abbrev void : Registry ℕ
void = empty_registry

abbrev greeting : ClientHello
greeting = record { version = 4; commander_name = 0x41 ∷ 0x6C ∷ [] }

void-HasRoom : HasRoom void
void-HasRoom = record {
  sound = record { paired = refl; small = omega arith; free_slots = tt };
  room = omega arith;
}

fresh : IsFresh 77 no_sessions
fresh = record {
  real = unfold next_token in (λ e. omega (arith, e));
  unused = unfold next_token lookup in refl;
}

abbrev met : HelloOutcome × Sessions × Registry ℕ
met = on_hello raft home greeting 10 false 77 no_sessions void

met_reached : Reachable raft false met.1
met_reached = next no_sessions met.1 start (a_hello void home greeting 10 77 fresh void-HasRoom)

Reachable-IsGood_example : IsGood met.1
Reachable-IsGood_example = Reachable-IsGood raft false met.1 met_reached

abbrev player : Session
player = at_key 65541 met.1

-- A datagram on the Control lane with the token 9, that nobody has.
abbrev forged : List ℕ
forged = 0x42 ∷ 0x4C ∷ 0x52 ∷ 0x4E ∷ 0 ∷ 9 ∷ 0 ∷ 0 ∷ 0 ∷ 0 ∷ 0 ∷ 0 ∷ 0 ∷ []

player_there : lookup 65541 met.1.table.sessions ≡ some player
player_there =
    unfold on_hello accept spawn_player next_token is_live session_or put_session grant endpoint_key
      lookup insert in
    refl

player_token : player.token ≡ 77
player_token =
    unfold on_hello accept spawn_player next_token is_live session_or put_session grant endpoint_key
      lookup insert tell in
    refl

player_live : is_live player ≡ true
player_live =
    unfold on_hello accept spawn_player next_token is_live session_or put_session grant endpoint_key
      lookup insert tell create in
    refl

forged_token : peek_reliable_token forged ≡ 9
forged_token = unfold peek_reliable_token read_u64 read_u32 read_u16 read_u8 in refl

afloat : Handles.IsSound met.2
afloat =
    unfold on_hello accept spawn_player next_token is_live session_or create add_all Registry.add
      lookup in
    record { paired = refl; small = omega arith; free_slots = tt }

on_reliable_others_example :
    lookup 65541 (on_reliable away forged 11 met.1).table.sessions ≡ some player
on_reliable_others_example =
    on_reliable_others away forged 11 65541 player met.1
      (Reachable-IsGood raft false met.1 met_reached) player_there player_live
      (λ e. omega (arith, e, player_token, forged_token))

on_input_others_example :
    lookup 65541
      (on_input void away 9
        (record { sequence = 3; ack_snapshot_tick = 0 })
        11
        met.1).1.table.sessions
    ≡ some player
on_input_others_example =
    on_input_others void away 9 (record { sequence = 3; ack_snapshot_tick = 0 }) 11 65541 player
      met.1 (Reachable-IsGood raft false met.1 met_reached) player_there
      (λ e. omega (arith, e, player_token))

authenticate_moves_example :
    ((authenticate away player.token 12 met.1).0 ≡ some (endpoint_key away))
    × (lookup (endpoint_key away) (authenticate away player.token 12 met.1).1.table.sessions
        ≡ some (moved away 12 player))
    × (lookup 65541 (authenticate away player.token 12 met.1).1.table.sessions ≡ none)
authenticate_moves_example =
    authenticate_moves away 12 65541 player met.1 (Reachable-IsGood raft false met.1 met_reached)
      player_there (λ e. omega (arith, e, player_token))
      (unfold on_hello accept spawn_player next_token is_live session_or put_session grant
          endpoint_key lookup insert in
        refl)

shell_held : held token_of (endpoint_key home) no_sessions.table.sessions ≡ 0
shell_held = unfold held lookup in refl

abbrev first_input : InputCommand
first_input = record { sequence = 1; ack_snapshot_tick = 0 }

accept_known_example :
    let (e, st', world') = accept raft (endpoint_key home) 77 [] new_session no_sessions void in
    let t = at_key (endpoint_key home) st' in
    let token = (next_token 77 no_sessions).0 in
    (is_valid e world' ≡ true)
    × (t.entity ≡ e)
    × (t.token ≡ token)
    × (t.player_id ≡ 1)
    × (t.name ≡ spawn_name [] e.index (endpoint_key home) [])
    × ((authenticate home token 11 st').0 ≡ some (endpoint_key home))
    × ((on_input world' home token first_input 11 st').0 ≡ e)
accept_known_example =
    accept_known raft home 77 [] new_session no_sessions void first_input 11
      (Reachable-IsGood raft false no_sessions start) fresh shell_held refl void-HasRoom
      (omega arith)

reap-lookup_example : lookup 65541 (reap 1000 5 600 void met.1).2.table.sessions ≡ (
    if idle_one 1000 5 600 (lookup 65541 met.1.table.sessions)
    then none
    else lookup 65541 met.1.table.sessions)
reap-lookup_example =
    reap-lookup 1000 5 600 void met.1 65541 (Reachable-IsGood raft false met.1 met_reached)

is_valid-reap_example : is_valid player.entity (reap 1000 5 600 met.2 met.1).1 ≡ (
    is_valid player.entity met.2
    && not (is_doomed 1000 5 600 player.entity met.1.ownership met.1.table.sessions))
is_valid-reap_example = is_valid-reap 1000 5 600 player.entity met.2 met.1 afloat

abbrev inputs : List InputCommand
inputs =
    record { sequence = 1; ack_snapshot_tick = 0 }
    ∷ record { sequence = 2; ack_snapshot_tick = 1 }
    ∷ []

unspent : spent 11 (at_key 65541 met.1) ≤ 8
unspent =
    unfold on_hello accept spawn_player next_token is_live session_or put_session grant endpoint_key
      lookup insert tell in
    omega arith

alone : length met.1.table.sessions < 999
alone =
    unfold on_hello accept spawn_player next_token is_live session_or put_session grant endpoint_key
      lookup insert in
    omega arith

applied-bounded_example : applied met.2 65541 11 inputs met.1 ≤ 8
applied-bounded_example = applied-bounded met.2 65541 11 inputs met.1 unspent

unique_name-free_example :
    is_taken 0 met.1.table.sessions (unique_name (0x41 ∷ 0x6C ∷ []) 0 met.1.table.sessions) ≡ false
unique_name-free_example = unique_name-free (0x41 ∷ 0x6C ∷ []) 0 met.1.table.sessions alone

passed-bounded_example : passed unauth_limits (100 ∷ 101 ∷ 102 ∷ []) new_rate ≤ 120
passed-bounded_example =
    passed-bounded unauth_limits 100 (101 ∷ 102 ∷ []) new_rate
      (record { some_pass = omega arith; counted = omega arith; long_mute = omega arith })
      (omega arith) (omega arith)
      (
        ((omega arith, omega arith, omega arith), omega arith),
        ((((omega arith, omega arith, omega arith), omega arith), tt)),
      )

abbrev sol : Entry
sol = (7, (pos 0, (pos 0, (pos 0, (0x53 ∷ [], (1, (2, (3, (4, (5, tt))))))))))
