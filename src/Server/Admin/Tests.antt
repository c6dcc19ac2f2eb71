-- ===== src/Server/Admin/Tests.antt =====
-- A manager at the door.
use deepspace_outpost_dx.Base.{
  lookup, insert, ℕ, ◌≡◌, refl, ◌≢◌, ◌↔◌, true, none, List, [], ◌∷◌, arith,
}
use deepspace_outpost_dx.Messages.{Value}
use deepspace_outpost_dx.Messages.Defs.Admin.{admin_hello}
use deepspace_outpost_dx.Server.Table.{empty_table, session_or, grant}
use deepspace_outpost_dx.Server.Table.Keyed.{IsKeyed}
use deepspace_outpost_dx.Server.Table.Laws.{held}
use deepspace_outpost_dx.Server.Admin.{is_live_admin, AdminChannel, tell_admin, session_count}
use deepspace_outpost_dx.Server.Admin.Key.{
  xor_bits, or_bits, difference, key_matches, key_matches_lem,
}
use deepspace_outpost_dx.Server.Admin.Hello.{
  next_admin_token, replay_events, replay_roster, ack_and_replay, accept_admin, on_admin_hello,
}
use deepspace_outpost_dx.Server.Admin.Good.{
  IsManaged, IsFreshFor, on_admin_hello-IsManaged, on_admin_hello_locked,
}

abbrev secret : List ℕ
secret = 0x73 ∷ 0x65 ∷ []

abbrev opened : AdminChannel
opened = record {
  key = secret;
  token_counter = 0;
  identity = record { game_logic_version = 1; tick_rate_ms = 33; game_port = 7777 };
  table = empty_table;
  rate = [];
  ring = [];
  event_seq = 0;
  roster = [];
  last_health = none;
}

abbrev right_hello : Value admin_hello.fields
right_hello = (4, (secret, tt))

abbrev wrong_hello : Value admin_hello.fields
wrong_hello = (4, (0x73 ∷ 0x66 ∷ [], tt))

opened-IsManaged : IsManaged opened
opened-IsManaged = record {
  sound = record {
    forth = λ token k e. absurd (unfold lookup in ground (arith, e));
    keyed = unfold IsKeyed in tt;
    back = λ k h. absurd (h (unfold held lookup in refl));
  };
  few = unfold session_count in omega arith;
  short = omega arith;
}

fresh_token : IsFreshFor 77 opened
fresh_token = record {
  real = unfold next_admin_token in (λ e. omega (arith, e));
  unused = unfold next_admin_token lookup in refl;
}

on_admin_hello-IsManaged_example : IsManaged (on_admin_hello 5 right_hello 10 77 opened)
on_admin_hello-IsManaged_example =
    on_admin_hello-IsManaged 5 right_hello 10 77 opened opened-IsManaged fresh_token

let_in : session_count (on_admin_hello 5 right_hello 10 77 opened).table.sessions ≡ 1
let_in =
    unfold on_admin_hello session_or lookup key_matches difference or_bits xor_bits is_live_admin
      session_count accept_admin next_admin_token grant insert ack_and_replay replay_events
      replay_roster tell_admin in
    refl

other_key : (0x73 ∷ 0x66 ∷ []) ≢ secret
other_key e = ground (arith, e)

on_admin_hello_locked_example :
    ((on_admin_hello 5 wrong_hello 10 77 opened).table.by_token ≡ [])
    × (session_count (on_admin_hello 5 wrong_hello 10 77 opened).table.sessions ≡ session_count [])
on_admin_hello_locked_example =
    on_admin_hello_locked 5 wrong_hello 10 77 opened (omega arith, (omega arith, tt))
      (omega arith, (omega arith, tt)) (λ e. other_key e)

key_matches_lem_example : (key_matches secret secret ≡ true) ↔ (secret ≡ secret)
key_matches_lem_example =
    key_matches_lem secret secret (omega arith, (omega arith, tt)) (omega arith, (omega arith, tt))
