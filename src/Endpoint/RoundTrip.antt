-- ===== src/Endpoint/RoundTrip.antt =====
-- The way of a datagram from a lane of one endpoint to the other endpoint.
use deepspace_outpost_dx.Base.{
  ltb, leb, length, set, All, ℕ, ◌-◌, ◌%◌, ◌^◌, ◌≤◌, ◌<◌, ◌≡◌, ◌⊎◌, inl, inr, false, ◌||◌, List,
  ◌∷◌, ◌++◌, arith,
}
use deepspace_outpost_dx.Wire.{write_u8, read_u8, ok}
use deepspace_outpost_dx.Wire.RoundTrip.{bytes_u32, bytes_u64, writes, read_u32_lem, read_u64_lem}
use deepspace_outpost_dx.Channel.{write_packet, read_packet}
use deepspace_outpost_dx.Channel.Codec.{Fits, chosen}
use deepspace_outpost_dx.Channel.Size.{length-write_packet}
use deepspace_outpost_dx.Endpoint.{
  reliable_magic, lane_count, header_size, LaneState, Endpoint, peek_reliable_token, lane_at,
  inner_max, write_datagram, on_datagram,
}

abbrev pub datagram_bytes : ℕ → ℕ → List ℕ → List ℕ
datagram_bytes i token inner = bytes_u32 reliable_magic ++ (i ∷ (bytes_u64 token ++ inner))

pub write_datagram_lem :
    (i token max : ℕ) (s : LaneState)
    → i < 2 ^ 8
    → write_datagram i token max s ≡ datagram_bytes i token (write_packet (inner_max max) s.channel)
unfolding write_datagram write_u8
write_datagram_lem i token max s h =
    let small : i % 2 ^ 8 ≡ i = omega arith in rw small (simp writes)

-- The lane after it was handed a packet.
abbrev pub take_packet : List ℕ → LaneState → LaneState
take_packet inner s =
    let (done, c) = read_packet inner s.channel in record s { channel = c; dirty = s.dirty || done }

routed :
    (i token : ℕ) (inner : List ℕ) (e : Endpoint)
    → i < lane_count
    → token < 2 ^ 64
    → on_datagram (datagram_bytes i token inner) e ≡ (
      (read_packet inner (lane_at i e).channel).0,
      record e { lanes = set e.lanes i (take_packet inner (lane_at i e)) },
    )
unfolding on_datagram read_u8 ok
routed i token inner e hi ht =
    let known : leb lane_count i ≡ false = ground arith in
    let long : ltb (length (datagram_bytes i token inner)) header_size ≡ false = ground arith in
    rw (
      read_u32_lem reliable_magic (i ∷ (bytes_u64 token ++ inner)) false (omega arith),
      read_u64_lem token inner false ht,
      known,
      long,
    )

peeked :
    (i token : ℕ) (inner : List ℕ)
    → token < 2 ^ 64
    → peek_reliable_token (datagram_bytes i token inner) ≡ token
unfolding peek_reliable_token read_u8
peeked i token inner ht =
    let long : ltb (length (datagram_bytes i token inner)) header_size ≡ false = ground arith in
    rw (
      read_u32_lem reliable_magic (i ∷ (bytes_u64 token ++ inner)) false (omega arith),
      read_u64_lem token inner false ht,
      long,
    )

-- A datagram that an endpoint writes for a reliable lane, with a token of 64 bits, is routed by the
-- other endpoint to the channel of the same lane, with the packet that the lane's channel wrote,
-- and marks that lane for an acknowledgement if the packet is read; its token can be read before it
-- is routed.
pub on_datagram-write_datagram :
    (i token max : ℕ) (s : LaneState) (e : Endpoint)
    → i < lane_count
    → token < 2 ^ 64
    → (on_datagram (write_datagram i token max s) e ≡ (
      (read_packet (write_packet (inner_max max) s.channel) (lane_at i e).channel).0,
      record e {
        lanes = set e.lanes i (take_packet (write_packet (inner_max max) s.channel) (lane_at i e));
      },
    ))
      × (peek_reliable_token (write_datagram i token max s) ≡ token)
on_datagram-write_datagram i token max s e hi ht =
    rw (write_datagram_lem i token max s (omega arith))
      (routed i token _ e hi ht, peeked i token _ ht)

-- A datagram of a reliable lane stays within the payload it was given, if that is more than the
-- header and less than 65536 bytes and the fields of the waiting messages fit their widths, unless
-- it carries one message at most.
pub length-write_datagram :
    (i token max : ℕ) (s : LaneState)
    → i < lane_count
    → header_size < max
    → max < 2 ^ 16
    → All Fits s.channel.unacked
    → (length (write_datagram i token max s) ≤ max)
      ⊎ (length (chosen (max - header_size) s.channel) ≤ 1)
length-write_datagram i token max s hi lo hm f =
    let room : inner_max max ≡ max - header_size = unfold inner_max in ground arith in
    rw (write_datagram_lem i token max s (omega arith), room)
      (elim (length-write_packet (max - header_size) s.channel f (omega arith)) [
        | inl h ↦ inl (omega arith)
        | inr h ↦ inr h
      ])
