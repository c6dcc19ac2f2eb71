-- ===== src/Endpoint/Tests.antt =====
-- Endpoints with one lane in use.
use deepspace_outpost_dx.Base.{
  length, set, All, ℕ, ◌≡◌, refl, true, false, none, some, List, [], ◌∷◌, arith,
}
use deepspace_outpost_dx.Endpoint.{
  LaneState, Endpoint, peek_reliable_token, inner_max, write_datagram, is_silent, write_lanes,
  write_datagrams, on_datagram, receive, has_ready,
}
use deepspace_outpost_dx.Channel.{
  ReliableMessage, Channel, initial, write_packet, read_packet, pending_outgoing,
}
use deepspace_outpost_dx.Endpoint.RoundTrip.{take_packet, on_datagram-write_datagram}
use deepspace_outpost_dx.Endpoint.Lanes.{First, receive_priority, Quiet}

abbrev order : ReliableMessage
order = record { type = 12; payload = 1 ∷ 2 ∷ 3 ∷ [] }

abbrev busy : Channel
busy = record {
  next_seq = 2;
  unacked = (1, order) ∷ [];
  next_expected = 1;
  buffered = [];
  ready = order ∷ [];
}

abbrev busy_lane : LaneState
busy_lane = record { channel = busy; dirty = false }

abbrev quiet_lane : LaneState
quiet_lane = record { channel = initial; dirty = true }

abbrev endpoint : Endpoint
endpoint = record { lanes = quiet_lane ∷ busy_lane ∷ quiet_lane ∷ []; token = 99 }

on_datagram-write_datagram_example :
    (on_datagram (write_datagram 1 99 1200 busy_lane) endpoint ≡ (
      (read_packet (write_packet (inner_max 1200) busy) busy).0,
      record endpoint {
        lanes = set endpoint.lanes 1 (take_packet (write_packet (inner_max 1200) busy) busy_lane);
      },
    ))
    × (peek_reliable_token (write_datagram 1 99 1200 busy_lane) ≡ 99)
on_datagram-write_datagram_example =
    on_datagram-write_datagram 1 99 1200 busy_lane endpoint (omega arith) (omega arith)

abbrev foreign : List ℕ
foreign = 66 ∷ 76 ∷ 82 ∷ 78 ∷ 7 ∷ []

receive_priority_example :
    ((receive endpoint).0 ≡ none → has_ready endpoint ≡ false)
    × ((m : ReliableMessage) → (receive endpoint).0 ≡ some m → First m endpoint.lanes)
receive_priority_example = receive_priority endpoint

abbrev idle : Endpoint
idle = record { lanes = quiet_lane ∷ quiet_lane ∷ quiet_lane ∷ []; token = 99 }

idle_Quiet : All Quiet idle.lanes
unfolding pending_outgoing
idle_Quiet = (refl, (refl, (refl, tt)))

write_datagrams-idle : length (write_datagrams 1200 idle).0 ≡ 3
unfolding write_datagrams write_lanes is_silent pending_outgoing
write_datagrams-idle = refl
