-- ===== src/Endpoint/Lanes.antt =====
-- The lanes of an endpoint, against each other.
use deepspace_outpost_dx.Base.{
  get_elem?, All, drop, get_elem?-set_ne, ℕ, suc, ◌≡◌, refl, sym, subst, ◌≢◌, ◌⊎◌, inl, inr, false,
  ◌||◌, Option, none, some, List, [], ◌∷◌, arith,
}
use deepspace_outpost_dx.Wire.{open_reader, read_u8, read_u32}
use deepspace_outpost_dx.Endpoint.{
  header_size, LaneState, Endpoint, lane_at, is_silent, write_lanes, write_datagrams, on_datagram,
  receive_lanes, receive, any_ready, has_ready,
}
use deepspace_outpost_dx.Channel
use deepspace_outpost_dx.Channel.{ReliableMessage, Channel, read_packet, pending_outgoing}

-- Whatever bytes come in, at most one lane changes, and the token does not.
pub on_datagram-other :
    (bytes : List ℕ) (e : Endpoint)
    → (i : ℕ) × ((j : ℕ) → j ≢ i → get_elem? (on_datagram bytes e).1.lanes j ≡ get_elem? e.lanes j)
      × ((on_datagram bytes e).1.token ≡ e.token)
unfolding on_datagram
on_datagram-other bytes e =
    let lane = (read_u8 (read_u32 (open_reader bytes)).1).0 in
    (
      lane,
      (λ j h. ground (
        arith,
        get_elem?-set_ne e.lanes lane j
            (record (lane_at lane e) {
              channel = (Channel.read_packet (drop header_size bytes) (lane_at lane e).channel).1;
              dirty =
                  (lane_at lane e).dirty
                  || (Channel.read_packet (drop header_size bytes) (lane_at lane e).channel).0;
            })
            (λ q. h (sym q)),
      )),
      ground arith,
    )

-- The message handed out is the next one of some lane, and the lanes before it have none ready.
abbrev pub First : ReliableMessage → List LaneState → Type 0
First m [] = ⊥
First m (s ∷ ss) =
    ((ms : List ReliableMessage) × (s.channel.ready ≡ m ∷ ms))
    ⊎ ((s.channel.ready ≡ []) × First m ss)

receive_cases :
    (c : Channel.Channel)
    → ((c.ready ≡ []) × (Channel.receive c ≡ (none, c)))
      ⊎ ((m : ReliableMessage) × (ms : List ReliableMessage) × (c.ready ≡ m ∷ ms)
          × (Channel.receive c ≡ (some m, record c { ready = ms })))
receive_cases c = go c.ready refl
  where
    go :
        (l : List ReliableMessage)
        → c.ready ≡ l
        → ((c.ready ≡ []) × (Channel.receive c ≡ (none, c)))
          ⊎ ((m : ReliableMessage) × (ms : List ReliableMessage) × (c.ready ≡ m ∷ ms)
              × (Channel.receive c ≡ (some m, record c { ready = ms })))
    go [] e = inl (e, unfold Channel.receive in ground arith)
    go (m ∷ ms) e = inr (m, ms, e, unfold Channel.receive in ground arith)

-- The answer of the loop over the lanes.
abbrev Answers : List LaneState → Option ReliableMessage → Type 0
Answers ss none = any_ready ss ≡ false
Answers ss (some m) = First m ss

receive_lanes_idle :
    (s : LaneState) (ss : List LaneState)
    → Channel.receive s.channel ≡ (none, s.channel)
    → (receive_lanes (s ∷ ss)).0 ≡ (receive_lanes ss).0
unfolding receive_lanes
receive_lanes_idle s ss r = ground arith

receive_lanes_ready :
    (s : LaneState) (ss : List LaneState) (m : ReliableMessage) (c : Channel.Channel)
    → Channel.receive s.channel ≡ (some m, c)
    → (receive_lanes (s ∷ ss)).0 ≡ some m
unfolding receive_lanes
receive_lanes_ready s ss m c r = ground arith

Answers-idle :
    (s : LaneState) (ss : List LaneState) (a : Option ReliableMessage)
    → s.channel.ready ≡ []
    → Answers ss a
    → Answers (s ∷ ss) a
unfolding any_ready Channel.has_ready
Answers-idle s ss none e h = ground arith
Answers-idle s ss (some m) e h = inr (e, h)

receive_lanes-Answers : (ss : List LaneState) → Answers ss (receive_lanes ss).0
receive_lanes-Answers [] = unfold any_ready receive_lanes in refl
receive_lanes-Answers (s ∷ ss) = elim (receive_cases s.channel) [
  | inl (e, r) ↦ rw (receive_lanes_idle s ss r) (Answers-idle s ss _ e (receive_lanes-Answers ss))
  | inr (m, ms, e, r) ↦ rw (receive_lanes_ready s ss m _ r) (inl (ms, e))
]

-- Receive serves the lanes by their order: it answers nothing only when no lane has a message
-- ready, and otherwise the oldest ready message of the first lane that has one.
pub receive_priority :
    (e : Endpoint)
    → ((receive e).0 ≡ none → has_ready e ≡ false)
      × ((m : ReliableMessage) → (receive e).0 ≡ some m → First m e.lanes)
unfolding receive has_ready
receive_priority e = (
  (λ h. subst (Answers e.lanes) h (receive_lanes-Answers e.lanes)),
  λ m h. subst (Answers e.lanes) h (receive_lanes-Answers e.lanes),
)

abbrev pub Quiet : LaneState → Type 0
Quiet s = pending_outgoing s.channel ≡ 0

write_lanes-Quiet :
    (i j token max max' : ℕ) (ss : List LaneState)
    → All Quiet ss
    → (write_lanes j token max' (write_lanes i token max ss).1).0 ≡ []
unfolding write_lanes is_silent
write_lanes-Quiet i j token max max' [] h = refl
write_lanes-Quiet i j token max max' (s ∷ ss) h =
    ground (arith, write_lanes-Quiet (suc i) (suc j) token max max' ss h.1)

-- If no lane has an unacknowledged message, the acknowledgements go out once: a second call right
-- behind the first one writes no datagram.
pub write_datagrams_twice :
    (max max' : ℕ) (e : Endpoint)
    → All Quiet e.lanes
    → (write_datagrams max' (write_datagrams max e).1).0 ≡ []
unfolding write_datagrams
write_datagrams_twice max max' e h = write_lanes-Quiet 0 0 e.token max max' e.lanes h
