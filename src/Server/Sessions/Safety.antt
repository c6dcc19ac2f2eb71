-- ===== src/Server/Sessions/Safety.antt =====
-- Whom a datagram reaches: nobody but the session whose token it carries.
use deepspace_outpost_dx.Base.{
  leb, ◌==◌, ne→==, Bool-cases, Option-cases, drop, lookup, lookup-insert, ℕ, ◌≡◌, refl, sym, ap,
  subst, ◌∙◌, ◌≢◌, inl, inr, true, ◌||◌, some, List, arith,
}
use deepspace_outpost_dx.Endpoint.{peek_reliable_token}
use deepspace_outpost_dx.Ecs.Registry.{Registry, is_valid}
use deepspace_outpost_dx.Server.{NetEndpoint, endpoint_key}
use deepspace_outpost_dx.Server.Table.{session_or, put_session}
use deepspace_outpost_dx.Server.Table.Laws.{held, held-some}
use deepspace_outpost_dx.Server.Table.Route.{resolve_others, resolve_own}
use deepspace_outpost_dx.Server.Limit.{rate_limited}
use deepspace_outpost_dx.Server.Sessions.{
  unauth_limits, max_inputs_per_tick, Session, is_live, Sessions, seen, moved, authenticate, at_key,
  write_session, InputCommand, open_tick, input_at, on_input, on_front_door, on_tokened,
  on_reliable,
}
use deepspace_outpost_dx.Server.Sessions.Good.{token_of, IsGood}

write_other :
    (j k : ℕ) (r s : Session) (st : Sessions)
    → lookup j st.table.sessions ≡ some s
    → k ≢ j
    → lookup j (write_session k r st).table.sessions ≡ some s
unfolding put_session
write_other j k r s st h apart = lookup-insert k j r st.table.sessions ∙ rw (ne→== _ _ apart) h

-- The two keys of two sessions with different tokens differ.
apart :
    (j k : ℕ) (s : Session) (st : Sessions)
    → lookup j st.table.sessions ≡ some s
    → held token_of k st.table.sessions ≢ s.token
    → k ≢ j
apart j k s st h other same = other (
    subst (λ (i : ℕ). held token_of i st.table.sessions ≡ s.token) (sym same)
      (held-some token_of j st.table.sessions s h))

input_at_other :
    {A : Type 0} (world : Registry A) (j k : ℕ) (input : InputCommand) (tick : ℕ) (s : Session)
    (st : Sessions)
    → lookup j st.table.sessions ≡ some s
    → k ≢ j
    → lookup j (input_at world k input tick st).1.table.sessions ≡ some s
unfolding input_at
input_at_other world j k input tick s st h away =
    elim (Bool-cases (is_valid (at_key k st).entity world)) [
      | inr gone ↦ rw (gone, input_at) h
      | inl here ↦
          elim (Bool-cases
            (leb max_inputs_per_tick (open_tick tick (at_key k st)).inputs_this_window)) [
              | inl full ↦ rw (here, full, input_at) (write_other j k _ s st h away)
              | inr room ↦ rw (here, room, input_at) (write_other j k _ s st h away)
            ]
    ]

authenticate_others :
    (ep : NetEndpoint) (token tick j : ℕ) (s : Session) (st : Sessions)
    → IsGood st
    → lookup j st.table.sessions ≡ some s
    → s.token ≢ token
    → lookup j (authenticate ep token tick st).1.table.sessions ≡ some s
unfolding authenticate
authenticate_others ep token tick j s st g h other =
    resolve_others token_of (seen tick) (moved ep tick) (endpoint_key ep) token j s st.table g.sound
      h other

-- The session that is found has the token, so one with another token is not it.
authenticate_apart :
    (ep : NetEndpoint) (token tick j k : ℕ) (s : Session) (st : Sessions)
    → IsGood st
    → lookup j st.table.sessions ≡ some s
    → s.token ≢ token
    → (authenticate ep token tick st).0 ≡ some k
    → k ≢ j
unfolding authenticate
authenticate_apart ep token tick j k s st g h other found =
    let (real, same, own) =
      resolve_own token_of (seen tick) (moved ep tick) (λ s. refl) (λ s. refl) (endpoint_key ep)
        token k st.table g.sound found in
    apart j k s (authenticate ep token tick st).1
      (unfold authenticate in authenticate_others ep token tick j s st g h other)
      (λ e. other (sym e ∙ own))

-- In good order, an input, from any endpoint, leaves every session with another token than its own
-- where it was and as it was.
pub on_input_others :
    {A : Type 0} (world : Registry A) (ep : NetEndpoint) (token : ℕ) (input : InputCommand)
    (tick j : ℕ) (s : Session) (st : Sessions)
    → IsGood st
    → lookup j st.table.sessions ≡ some s
    → s.token ≢ token
    → lookup j (on_input world ep token input tick st).1.table.sessions ≡ some s
unfolding on_input
on_input_others world ep token input tick j s st g h other =
    let h' = authenticate_others ep token tick j s st g h other in
    elim (Option-cases (authenticate ep token tick st).0) [
      | inl unknown ↦ rw (unknown, on_input) h'
      | inr (k, found) ↦
          rw (found, on_input)
            (input_at_other world j k input tick s _ h'
              (authenticate_apart ep token tick j k s st g h other found))
    ]

on_tokened_others :
    (ep : NetEndpoint) (token : ℕ) (bytes : List ℕ) (tick j : ℕ) (s : Session) (st : Sessions)
    → IsGood st
    → lookup j st.table.sessions ≡ some s
    → s.token ≢ token
    → lookup j (on_tokened ep token bytes tick st).table.sessions ≡ some s
unfolding on_tokened
on_tokened_others ep token bytes tick j s st g h other =
    let h' = authenticate_others ep token tick j s st g h other in
    elim (Option-cases (authenticate ep token tick st).0) [
      | inl unknown ↦ rw (unknown, on_tokened) h'
      | inr (k, found) ↦
          rw (found, on_tokened)
            (write_other j k _ s (authenticate ep token tick st).1 h'
              (authenticate_apart ep token tick j k s st g h other found))
    ]

pub at_key-some :
    (k : ℕ) (s : Session) (st : Sessions) → lookup k st.table.sessions ≡ some s → at_key k st ≡ s
unfolding session_or
at_key-some k s st h = rw (h, session_or) refl

on_front_door_live :
    (ep : NetEndpoint) (bytes : List ℕ) (tick j : ℕ) (s : Session) (st : Sessions)
    → lookup j st.table.sessions ≡ some s
    → is_live s ≡ true
    → lookup j (on_front_door ep bytes tick st).table.sessions ≡ some s
unfolding on_front_door
on_front_door_live ep bytes tick j s st h live =
    let k = endpoint_key ep in
    let (drop, rate) = rate_limited unauth_limits k tick st.rate in
    let charged : Sessions = record st { rate = rate } in
    elim (Bool-cases (drop || is_live (at_key k st))) [
      | inl closed ↦ rw (closed, on_front_door) h
      | inr open_door ↦
          rw (open_door, on_front_door)
            (write_other j k _ s charged h (λ same.
              let me : at_key k st ≡ s =
                at_key-some k s st (ap (λ (i : ℕ). lookup i st.table.sessions) same ∙ h) in
              ground (arith, open_door, live, ap is_live me)))
    ]

-- In good order, a reliable datagram, from any endpoint, leaves every live session whose token it
-- does not carry where it was and as it was; one without a token leaves every live session so.
pub on_reliable_others :
    (ep : NetEndpoint) (bytes : List ℕ) (tick j : ℕ) (s : Session) (st : Sessions)
    → IsGood st
    → lookup j st.table.sessions ≡ some s
    → is_live s ≡ true
    → s.token ≢ peek_reliable_token bytes
    → lookup j (on_reliable ep bytes tick st).table.sessions ≡ some s
unfolding on_reliable
on_reliable_others ep bytes tick j s st g h live other =
    elim (Bool-cases (peek_reliable_token bytes == 0)) [
      | inl bare ↦ rw (bare, on_reliable) (on_front_door_live ep bytes tick j s st h live)
      | inr tokened ↦
          rw (tokened, on_reliable)
            (on_tokened_others ep (peek_reliable_token bytes) bytes tick j s st g h other)
    ]
