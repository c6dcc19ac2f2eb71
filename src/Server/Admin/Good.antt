-- ===== src/Server/Admin/Good.antt =====
-- The token index of the managers' channel stays sound, and no more than four managers are let in.
use deepspace_outpost_dx.Base.{
  leb, ◌==◌, if◌then◌else◌, Bool-cases, length, set, All, lookup, insert, ℕ, ◌+◌, ◌≤◌, ◌<◌, ◌≡◌,
  refl, sym, ◌∙◌, ◌≢◌, inl, inr, Option, none, some, List, [], ◌∷◌, arith,
}
use deepspace_outpost_dx.Messages.{Value}
use deepspace_outpost_dx.Messages.Defs.Admin.{admin_hello, admin_hello_reject}
use deepspace_outpost_dx.Server.Table.{session_or, put_session, grant}
use deepspace_outpost_dx.Server.Table.Laws.{held, IsSound, IsSound-put, IsSound-grant}
use deepspace_outpost_dx.Server.Table.Every.{session_or-held}
use deepspace_outpost_dx.Server.Admin.{
  admin_event_ring, max_admin_sessions, AdminSession, new_admin, is_live_admin, Event, PlayerRow,
  Health, AdminChannel, tell_admin, session_count,
}
use deepspace_outpost_dx.Server.Admin.Key.{key_matches, key_matches_lem}
use deepspace_outpost_dx.Server.Admin.Hello.{
  admin_seen, next_admin_token, note_key_failure, replay_events, replay_roster, replay_health,
  ack_and_replay, put_admin, reject_admin, accept_admin, on_admin_hello,
}
use deepspace_outpost_dx.Server.Sessions.Hello.{protocol_version}

abbrev pub admin_token : AdminSession → ℕ
admin_token s = s.token

-- One more session of a key that had none, or another in its place.
session_count-insert :
    (k : ℕ) (s : AdminSession) (d : List (ℕ × AdminSession))
    → session_count (insert k s d) + (if held admin_token k d == 0 then 0 else 1)
      ≡ session_count d + (if s.token == 0 then 0 else 1)
unfolding session_count is_live_admin held lookup insert
session_count-insert k s [] = ground arith
session_count-insert k s ((j, r) ∷ d) = ground (arith, session_count-insert k s d)

replay_events_token : (es : List Event) (s : AdminSession) → (replay_events es s).token ≡ s.token
unfolding replay_events
replay_events_token [] s = refl
replay_events_token (e ∷ es) s = replay_events_token es _

replay_roster_token :
    (rows : List (ℕ × PlayerRow)) (s : AdminSession) → (replay_roster rows s).token ≡ s.token
unfolding replay_roster
replay_roster_token [] s = refl
replay_roster_token ((k, row) ∷ rows) s = replay_roster_token rows _

replay_health_token : (h : Option Health) (s : AdminSession) → (replay_health h s).token ≡ s.token
replay_health_token none s = refl
replay_health_token (some h) s = refl

ack_and_replay_token :
    (tick : ℕ) (c : AdminChannel) (s : AdminSession) → (ack_and_replay tick c s).token ≡ s.token
unfolding ack_and_replay
ack_and_replay_token tick c s =
    replay_health_token c.last_health _
    ∙ replay_roster_token c.roster _
    ∙ replay_events_token c.ring _
    ∙ unfold tell_admin in refl

-- The index and the sessions agree, no more managers are live than the cap, and no more events wait
-- than the ring takes.
pub record IsManaged (c : AdminChannel) : Type 0 where
  pub sound : IsSound admin_token c.table
  pub few : session_count c.table.sessions ≤ max_admin_sessions
  pub short : length c.ring ≤ admin_event_ring

-- The next token is real, and no manager has it.
pub record IsFreshFor (drawn : ℕ) (c : AdminChannel) : Type 0 where
  pub real : (next_admin_token drawn c).0 ≢ 0
  pub unused : lookup (next_admin_token drawn c).0 c.table.by_token ≡ none

next_admin_token_keeps :
    (drawn : ℕ) (c : AdminChannel)
    → ((next_admin_token drawn c).1.table ≡ c.table) × ((next_admin_token drawn c).1.ring ≡ c.ring)
unfolding next_admin_token
next_admin_token_keeps drawn c = elim (Bool-cases (drawn == 0)) [
  | inl unset ↦ rw (unset, next_admin_token) (refl, refl)
  | inr set ↦ rw (set, next_admin_token) (refl, refl)
]

put_admin-IsManaged :
    (k : ℕ) (s : AdminSession) (c : AdminChannel)
    → IsManaged c
    → s.token ≡ held admin_token k c.table.sessions
    → IsManaged (put_admin k s c)
put_admin-IsManaged k s c g own = record {
  sound = IsSound-put admin_token k s c.table g.sound own;
  few = unfold put_session in ground (arith, g.few, session_count-insert k s c.table.sessions, own);
  short = g.short;
}

note_key_failure-IsManaged :
    (k tick : ℕ) (c : AdminChannel) → IsManaged c → IsManaged (note_key_failure k tick c)
unfolding note_key_failure
note_key_failure-IsManaged k tick c g = record { sound = g.sound; few = g.few; short = g.short }

accept_admin-IsManaged :
    (k tick drawn : ℕ) (s : AdminSession) (c : AdminChannel)
    → IsManaged c
    → IsFreshFor drawn c
    → held admin_token k c.table.sessions ≡ 0
    → session_count c.table.sessions < max_admin_sessions
    → IsManaged (accept_admin k tick drawn s c)
unfolding accept_admin
accept_admin-IsManaged k tick drawn s c g f bare room =
    let token = (next_admin_token drawn c).0 in
    let c' = (next_admin_token drawn c).1 in
    let s' = ack_and_replay tick c' (record s { token = token }) in
    let (table, ring) = next_admin_token_keeps drawn c in
    let own : s'.token ≡ token = ack_and_replay_token tick c' (record s { token = token }) in
    record {
      sound =
          rw table (IsSound-grant admin_token k token s' c.table g.sound own f.real bare f.unused);
      few =
          rw table (
            unfold grant in ground (arith, room, session_count-insert k s' c.table.sessions, bare));
      short = rw ring g.short;
    }

-- A manager's hello, whatever it says, keeps the channel in order, if the token that would be drawn
-- is real and new: the token index and the sessions agree, at most four managers are live, and at
-- most 256 events wait in the ring.
pub on_admin_hello-IsManaged :
    (k : ℕ) (hello : Value admin_hello.fields) (tick drawn : ℕ) (c : AdminChannel)
    → IsManaged c
    → IsFreshFor drawn c
    → IsManaged (on_admin_hello k hello tick drawn c)
unfolding on_admin_hello
on_admin_hello-IsManaged k hello tick drawn c g f =
    let s = admin_seen tick (session_or new_admin k c.table) in
    let own : s.token ≡ held admin_token k c.table.sessions =
      session_or-held admin_token new_admin k c.table refl in
    elim (Bool-cases (hello.0 == protocol_version)) [
      | inr old ↦ rw (old, on_admin_hello) (put_admin-IsManaged k _ c g (unfold tell_admin in own))
      | inl same ↦ elim (Bool-cases (key_matches c.key hello.1.0)) [
        | inr wrong ↦
            rw (same, wrong, on_admin_hello)
              (note_key_failure-IsManaged k tick (reject_admin k 2 s c) (
                put_admin-IsManaged k (tell_admin admin_hello_reject (2, tt) s) c g
                  (unfold tell_admin in own)))
        | inl right ↦ elim (Bool-cases (is_live_admin s)) [
          | inl live ↦
              rw (same, right, live, on_admin_hello)
                (put_admin-IsManaged k _ c g (ack_and_replay_token tick c s ∙ own))
          | inr shell ↦
              elim (Bool-cases (leb max_admin_sessions (session_count c.table.sessions))) [
                | inl full ↦
                    rw (same, right, shell, full, on_admin_hello)
                      (put_admin-IsManaged k _ c g (unfold tell_admin in own))
                | inr room ↦
                    rw (same, right, shell, room, on_admin_hello)
                      (accept_admin-IsManaged k tick drawn s c g f
                        (sym own ∙ unfold is_live_admin in ground (arith, shell))
                        (ground (arith, room)))
              ]
        ]
      ]
    ]

put_admin_count :
    (k : ℕ) (s : AdminSession) (c : AdminChannel)
    → s.token ≡ held admin_token k c.table.sessions
    → session_count (put_admin k s c).table.sessions ≡ session_count c.table.sessions
unfolding put_session
put_admin_count k s c own = ground (arith, own, session_count-insert k s c.table.sessions)

-- A hello with a key of bytes that is not the secret lets nobody in: no token is given out, and as
-- many managers are live as were before.
pub on_admin_hello_locked :
    (k : ℕ) (hello : Value admin_hello.fields) (tick drawn : ℕ) (c : AdminChannel)
    → All (λ b. b < 256) c.key
    → All (λ b. b < 256) hello.1.0
    → hello.1.0 ≢ c.key
    → ((on_admin_hello k hello tick drawn c).table.by_token ≡ c.table.by_token)
      × (session_count (on_admin_hello k hello tick drawn c).table.sessions
          ≡ session_count c.table.sessions)
unfolding on_admin_hello
on_admin_hello_locked k hello tick drawn c hk hp other =
    let s = admin_seen tick (session_or new_admin k c.table) in
    let own : s.token ≡ held admin_token k c.table.sessions =
      session_or-held admin_token new_admin k c.table refl in
    elim (Bool-cases (hello.0 == protocol_version)) [
      | inr old ↦
          rw (old, on_admin_hello)
            (
              unfold put_session in refl,
              put_admin_count k (tell_admin admin_hello_reject (1, tt) s) c
                  (unfold tell_admin in own),
            )
      | inl same ↦ elim (Bool-cases (key_matches c.key hello.1.0)) [
        | inl right ↦ absurd (other ((key_matches_lem c.key hello.1.0 hk hp).0 right))
        | inr wrong ↦
            rw (same, wrong, on_admin_hello)
              (
                unfold note_key_failure put_session in refl,
                unfold note_key_failure in
                    put_admin_count k (tell_admin admin_hello_reject (2, tt) s) c
                      (unfold tell_admin in own),
              )
      ]
    ]
