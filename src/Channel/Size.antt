-- ===== src/Channel/Size.antt =====
-- The size of a packet that WritePacket builds.
use deepspace_outpost_dx.Base.{
  ltb, Bool-cases, length, All, length-append, ℕ, ◌+◌, ◌*◌, ◌^◌, ◌≤◌, ◌<◌, ◌≡◌, refl, ◌⊎◌, inl, inr,
  true, false, List, [], ◌∷◌, arith,
}
use deepspace_outpost_dx.Channel.{Entry, Channel, local_ack, choose, write_packet, read_packet}
use deepspace_outpost_dx.Channel.Codec.{
  Fits, entries_bytes, packet_bytes, choose-All, chosen, write_packet_lem, take_in, read_packet_lem,
}

abbrev pub sizes : List Entry → ℕ
sizes [] = 0
sizes ((seq, m) ∷ d) = 4 + 2 + 2 + length m.payload + sizes d

length-entries_bytes : (d : List Entry) → length (entries_bytes d) ≡ sizes d
length-entries_bytes [] = refl
length-entries_bytes ((seq, m) ∷ d) =
    omega (arith, length-append m.payload (entries_bytes d), length-entries_bytes d)

length-le-sizes : (d : List Entry) → 8 * length d ≤ sizes d
length-le-sizes [] = omega arith
length-le-sizes ((seq, m) ∷ d) = omega (arith, length-le-sizes d)

-- After the first message, only what fits is taken.
choose-sizes :
    (used max : ℕ) (d : List Entry) → used ≤ max → used + sizes (choose false used max d) ≤ max
unfolding choose
choose-sizes used max [] h = omega arith
choose-sizes used max ((seq, m) ∷ d) h =
    ground (arith, choose-sizes (used + (4 + 2 + 2 + length m.payload)) max d)

choose_full : (used max : ℕ) (d : List Entry) → max < used → choose false used max d ≡ []
unfolding choose
choose_full used max [] h = refl
choose_full used max ((seq, m) ∷ d) h = ground arith

chosen_sizes :
    (max : ℕ) (d : List Entry)
    → (12 + sizes (choose true 12 max d) ≤ max) ⊎ (length (choose true 12 max d) ≤ 1)
unfolding choose
chosen_sizes max [] = inr (omega arith)
chosen_sizes max ((seq, m) ∷ d) =
    elim (Bool-cases (ltb max (12 + (4 + 2 + 2 + length m.payload)))) [
      | inl over ↦ inr (
          rw (choose_full (12 + (4 + 2 + 2 + length m.payload)) max d (ground arith)) (omega arith))
      | inr fits ↦
          inl
            (omega (arith, choose-sizes (12 + (4 + 2 + 2 + length m.payload)) max d (ground arith)))
    ]

-- The 16-bit count of a packet does not wrap.
pub count_fits : (max : ℕ) (c : Channel) → max < 2 ^ 16 → length (chosen max c) < 2 ^ 16
count_fits max c h = elim (chosen_sizes max c.unacked) [
  | inl s ↦ omega (arith, length-le-sizes (chosen max c))
  | inr s ↦ omega arith
]

length-packet_bytes : (ack : ℕ) (d : List Entry) → length (packet_bytes ack d) ≡ 12 + sizes d
length-packet_bytes ack d = omega (arith, length-entries_bytes d)

-- A packet stays within the payload it was given, if that is less than 65536 bytes and the fields
-- of the waiting messages fit their widths, unless it holds one message at most.
pub length-write_packet :
    (max : ℕ) (c : Channel)
    → All Fits c.unacked
    → max < 2 ^ 16
    → (length (write_packet max c) ≤ max) ⊎ (length (chosen max c) ≤ 1)
length-write_packet max c f h =
    rw (write_packet_lem max c f (count_fits max c h), length-packet_bytes)
      (chosen_sizes max c.unacked)

local_ack-lt : (c : Channel) → local_ack c < 2 ^ 32
unfolding local_ack
local_ack-lt c = omega arith

-- What ReadPacket does with a packet that the other side wrote, if the fields of its waiting
-- messages fit their widths and the packet was to hold less than 65536 bytes: it succeeds, drops
-- what the packet acknowledges, and accepts the messages that the writer chose, in their order.
pub read_packet-write_packet :
    (max : ℕ) (c d : Channel)
    → max < 2 ^ 16
    → All Fits c.unacked
    → read_packet (write_packet max c) d ≡ (true, take_in (local_ack c) (chosen max c) d)
read_packet-write_packet max c d h f =
    let n = count_fits max c h in
    rw (write_packet_lem max c f n) (
      read_packet_lem (local_ack c) (chosen max c) d (local_ack-lt c) n
        (choose-All Fits true _ max c.unacked f))
