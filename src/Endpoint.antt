-- ===== src/Endpoint.antt =====
-- NeuronCore/Messages/MessageEndpoint.h: one reliable channel for each reliable lane.
pub mod Lanes
pub mod RoundTrip
mod Tests
use deepspace_outpost_dx.Base.{
  ltb, leb, ◌==◌, if◌then◌else◌, length, get_or, set, drop, ℕ, suc, ◌+◌, ◌-◌, ◌%◌, ◌^◌, Bool, true,
  false, not, ◌&&◌, ◌||◌, Option, none, some, List, [], ◌∷◌,
}
use deepspace_outpost_dx.Wire.{
  write_u8, write_u32, write_u64, write_bytes, open_reader, read_u8, read_u32, read_u64, ok,
}
use deepspace_outpost_dx.Channel
use deepspace_outpost_dx.Channel.{
  ReliableMessage, Channel, initial, send, write_packet, read_packet, pending_outgoing,
}

abbrev pub reliable_magic : ℕ
reliable_magic = 0x4E524C42

abbrev pub lane_count : ℕ
lane_count = 3

abbrev pub header_size : ℕ
header_size = 4 + 1 + 8

-- MessageLane, in its order; the reliable lanes come first.
pub data Lane : Type 0 where
  control gameplay bulk unreliable : Lane

unfoldable pub lane_index : Lane → ℕ
lane_index control = 0
lane_index gameplay = 1
lane_index bulk = 2
lane_index unreliable = 3

unfoldable pub is_reliable_lane : Lane → Bool
is_reliable_lane unreliable = false
is_reliable_lane _ = true

-- An entry of `m_lanes` with the entry of `m_dirty` at the same index.
pub record LaneState : Type 0 where
  pub channel : Channel
  pub dirty : Bool

pub record Endpoint : Type 0 where
  pub lanes : List LaneState
  pub token : ℕ

abbrev pub idle_lane : LaneState
idle_lane = record { channel = initial; dirty = false }

abbrev pub initial_endpoint : Endpoint
initial_endpoint = record { lanes = idle_lane ∷ idle_lane ∷ idle_lane ∷ []; token = 0 }

unfoldable pub peek_reliable_token : List ℕ → ℕ
peek_reliable_token bytes =
    let (magic, r₁) = read_u32 (open_reader bytes) in
    let (lane, r₂) = read_u8 r₁ in
    if ltb (length bytes) header_size
    then 0
    else if not (magic == reliable_magic)
    then 0
    else (read_u64 r₂).0

unfoldable pub set_token : ℕ → Endpoint → Endpoint
set_token token e = record e { token = token }

abbrev pub lane_at : ℕ → Endpoint → LaneState
lane_at i e = get_or e.lanes i idle_lane

-- `SendRaw`, and `Send` with the id and the encoding of its message.
unfoldable pub send_raw : Lane → ReliableMessage → Endpoint → ℕ × Endpoint
send_raw lane m e =
    let s = lane_at (lane_index lane) e in
    let (seq, c) = send m s.channel in
    (seq, record e { lanes = set e.lanes (lane_index lane) (record s { channel = c }) })

-- `innerMax`.
unfoldable pub inner_max : ℕ → ℕ
inner_max max = if ltb header_size max then max - header_size else 1

unfoldable pub write_datagram : ℕ → ℕ → ℕ → LaneState → List ℕ
write_datagram i token max s =
    write_bytes (write_packet (inner_max max) s.channel)
      (write_u64 token (write_u8 (i % 2 ^ 8) (write_u32 reliable_magic [])))

unfoldable pub is_silent : LaneState → Bool
is_silent s = pending_outgoing s.channel == 0 && not s.dirty

-- The loop over the lanes from index `i` on: the datagrams, and the lanes as they are left.
unfoldable pub write_lanes : ℕ → ℕ → ℕ → List LaneState → List (List ℕ) × List LaneState
write_lanes i token max [] = ([], [])
write_lanes i token max (s ∷ ss) =
    let (out, left) = write_lanes (suc i) token max ss in
    if is_silent s
    then (out, s ∷ left)
    else (write_datagram i token max s ∷ out, record s { dirty = false } ∷ left)

unfoldable pub write_datagrams : ℕ → Endpoint → List (List ℕ) × Endpoint
write_datagrams max e =
    let (out, left) = write_lanes 0 e.token max e.lanes in (out, record e { lanes = left })

unfoldable pub on_datagram : List ℕ → Endpoint → Bool × Endpoint
on_datagram bytes e =
    let (magic, r₁) = read_u32 (open_reader bytes) in
    let (lane, r₂) = read_u8 r₁ in
    let (token, r₃) = read_u64 r₂ in
    let s = lane_at lane e in
    let (done, c) = read_packet (drop header_size bytes) s.channel in
    if not (magic == reliable_magic)
    then (false, e)
    else if not (ok r₃) || leb lane_count lane || ltb (length bytes) header_size
    then (false, e)
    else (
      done,
      record e { lanes = set e.lanes lane (record s { channel = c; dirty = s.dirty || done }) },
    )

-- The first lane with a message ready, Control before Gameplay before Bulk.
unfoldable pub receive_lanes : List LaneState → Option ReliableMessage × List LaneState
receive_lanes [] = (none, [])
receive_lanes (s ∷ ss) =
    let (found, left) = receive_lanes ss in
    let (m, c) = Channel.receive s.channel in
    elim m [ none ↦ (found, s ∷ left) | some x ↦ (some x, record s { channel = c } ∷ ss) ]

unfoldable pub receive : Endpoint → Option ReliableMessage × Endpoint
receive e = let (m, left) = receive_lanes e.lanes in (m, record e { lanes = left })

unfoldable pub any_ready : List LaneState → Bool
any_ready [] = false
any_ready (s ∷ ss) = Channel.has_ready s.channel || any_ready ss

unfoldable pub has_ready : Endpoint → Bool
has_ready e = any_ready e.lanes

unfoldable pub pending_lanes : List LaneState → ℕ
pending_lanes [] = 0
pending_lanes (s ∷ ss) = pending_outgoing s.channel + pending_lanes ss

unfoldable pub pending : Endpoint → ℕ
pending e = pending_lanes e.lanes
