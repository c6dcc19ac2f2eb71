-- ===== src/Server/Sessions/Datagram.antt =====
-- Input and reliable datagrams keep the invariant of the sessions.
use deepspace_outpost_dx.Base.{
  ltb, leb, ◌==◌, Bool-cases, Option-cases, drop, ℕ, refl, inl, inr, ◌||◌, List,
}
use deepspace_outpost_dx.Endpoint.{peek_reliable_token}
use deepspace_outpost_dx.Ecs.Registry.{Registry, is_valid}
use deepspace_outpost_dx.Server.{NetEndpoint, endpoint_key}
use deepspace_outpost_dx.Server.Table.Every.{resolve-Every}
use deepspace_outpost_dx.Server.Table.Route.{resolve-IsSound}
use deepspace_outpost_dx.Server.Limit.{rate_limited}
use deepspace_outpost_dx.Server.Sessions.{
  unauth_limits, max_inputs_per_tick, Session, is_live, Sessions, seen, moved, authenticate, at_key,
  InputCommand, open_tick, apply_input, input_at, on_input, on_front_door, on_tokened, on_reliable,
}
use deepspace_outpost_dx.Server.Sessions.Good.{
  token_of, IsFit, IsGood, IsLike, IsLike-IsFit, write_session-IsGood, same_table, IsLike-trans,
}

pub authenticate-IsGood :
    (ep : NetEndpoint) (token tick : ℕ) (st : Sessions)
    → IsGood st
    → IsGood (authenticate ep token tick st).1
unfolding authenticate
authenticate-IsGood ep token tick st g = record {
  sound =
      resolve-IsSound token_of (seen tick) (moved ep tick) (λ s. refl) (λ s. refl) (endpoint_key ep)
        token st.table g.sound;
  fit =
      resolve-Every IsFit token_of (seen tick) (moved ep tick) (endpoint_key ep) token st.table
        (λ s. IsLike-IsFit (seen tick s) s (record { token = refl; entity = refl; loading = refl }))
        (λ s.
          IsLike-IsFit (moved ep tick s) s (record { token = refl; entity = refl; loading = refl }))
        g.sound g.fit;
}

open_tick-IsLike : (tick : ℕ) (s : Session) → IsLike (open_tick tick s) s
unfolding open_tick
open_tick-IsLike tick s = elim (Bool-cases (s.input_window_tick == tick)) [
  | inl same ↦ rw (same, open_tick) (record { token = refl; entity = refl; loading = refl })
  | inr other ↦ rw (other, open_tick) (record { token = refl; entity = refl; loading = refl })
]

apply_input-IsLike : (input : InputCommand) (s : Session) → IsLike (apply_input input s) s
unfolding apply_input
apply_input-IsLike input s = elim (Bool-cases (ltb s.last_input_seq input.sequence)) [
  | inl newer ↦ rw (newer, apply_input) (record { token = refl; entity = refl; loading = refl })
  | inr stale ↦ rw (stale, apply_input) (record { token = refl; entity = refl; loading = refl })
]

pub input-IsLike :
    (input : InputCommand) (tick : ℕ) (s : Session)
    → IsLike (open_tick tick s) s × IsLike (apply_input input (open_tick tick s)) s
input-IsLike input tick s = (
  open_tick-IsLike tick s,
  IsLike-trans _ _ _ (apply_input-IsLike input (open_tick tick s)) (open_tick-IsLike tick s),
)

pub input_at-IsGood :
    {A : Type 0} (world : Registry A) (k : ℕ) (input : InputCommand) (tick : ℕ) (st : Sessions)
    → IsGood st
    → IsGood (input_at world k input tick st).1
unfolding input_at
input_at-IsGood world k input tick st g =
    let (opened, applied) = input-IsLike input tick (at_key k st) in
    elim (Bool-cases (is_valid (at_key k st).entity world)) [
      | inr gone ↦ rw (gone, input_at) g
      | inl here ↦
          elim (Bool-cases
            (leb max_inputs_per_tick (open_tick tick (at_key k st)).inputs_this_window)) [
              | inl full ↦ rw (here, full, input_at) (write_session-IsGood k _ st g opened)
              | inr room ↦ rw (here, room, input_at) (write_session-IsGood k _ st g applied)
            ]
    ]

pub on_input-IsGood :
    {A : Type 0} (world : Registry A) (ep : NetEndpoint) (token : ℕ) (input : InputCommand)
    (tick : ℕ) (st : Sessions)
    → IsGood st
    → IsGood (on_input world ep token input tick st).1
unfolding on_input
on_input-IsGood world ep token input tick st g =
    let h = authenticate-IsGood ep token tick st g in
    elim (Option-cases (authenticate ep token tick st).0) [
      | inl unknown ↦ rw (unknown, on_input) h
      | inr (k, found) ↦ rw (found, on_input) (input_at-IsGood world k input tick _ h)
    ]

pub on_front_door-IsGood :
    (ep : NetEndpoint) (bytes : List ℕ) (tick : ℕ) (st : Sessions)
    → IsGood st
    → IsGood (on_front_door ep bytes tick st)
unfolding on_front_door
on_front_door-IsGood ep bytes tick st g =
    let k = endpoint_key ep in
    let (drop, rate) = rate_limited unauth_limits k tick st.rate in
    let charged : Sessions = record st { rate = rate } in
    let h : IsGood charged = same_table st charged refl g in
    elim (Bool-cases (drop || is_live (at_key k st))) [
      | inl closed ↦ rw (closed, on_front_door) h
      | inr open_door ↦
          rw (open_door, on_front_door)
            (write_session-IsGood k _ charged h
              (record { token = refl; entity = refl; loading = refl }))
    ]

pub on_tokened-IsGood :
    (ep : NetEndpoint) (token : ℕ) (bytes : List ℕ) (tick : ℕ) (st : Sessions)
    → IsGood st
    → IsGood (on_tokened ep token bytes tick st)
unfolding on_tokened
on_tokened-IsGood ep token bytes tick st g =
    let h = authenticate-IsGood ep token tick st g in
    elim (Option-cases (authenticate ep token tick st).0) [
      | inl unknown ↦ rw (unknown, on_tokened) h
      | inr (k, found) ↦
          rw (found, on_tokened)
            (write_session-IsGood k _ _ h (record { token = refl; entity = refl; loading = refl }))
    ]

pub on_reliable-IsGood :
    (ep : NetEndpoint) (bytes : List ℕ) (tick : ℕ) (st : Sessions)
    → IsGood st
    → IsGood (on_reliable ep bytes tick st)
unfolding on_reliable
on_reliable-IsGood ep bytes tick st g = elim (Bool-cases (peek_reliable_token bytes == 0)) [
  | inl bare ↦ rw (bare, on_reliable) (on_front_door-IsGood ep bytes tick st g)
  | inr tokened ↦
      rw (tokened, on_reliable) (on_tokened-IsGood ep (peek_reliable_token bytes) bytes tick st g)
]
