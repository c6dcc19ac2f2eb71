-- ===== src/Channel/Tests.antt =====
-- The reliable channel on small packets.
use deepspace_outpost_dx.Base.{All, lookup, erase, ℕ, ◌≡◌, refl, true, false, List, [], ◌∷◌, arith}
use deepspace_outpost_dx.Wire.{read_u32}
use deepspace_outpost_dx.Channel.{
  ReliableMessage, Entry, Channel, initial, emplace, local_ack, write_packet, flush, accept,
  read_packet,
}
use deepspace_outpost_dx.Channel.Progress.{accept_all, Covers, accept_all_complete}
use deepspace_outpost_dx.Channel.Codec.{Fits, chosen, take_in}
use deepspace_outpost_dx.Channel.Size.{read_packet-write_packet}

abbrev chat : ℕ → ReliableMessage
chat n = record { type = 3; payload = n ∷ n ∷ [] }

abbrev sent_two : List ReliableMessage
sent_two = chat 5 ∷ chat 6 ∷ []

-- The second message comes in twice, and before the first one.
abbrev shuffled : List Entry
shuffled = (2, chat 6) ∷ (2, chat 6) ∷ (1, chat 5) ∷ (2, chat 6) ∷ []

shuffled-Covers : Covers 2 shuffled
shuffled-Covers k lo hi = ground arith

accept_all_complete_example : (accept_all shuffled initial).ready ≡ sent_two
accept_all_complete_example =
    accept_all_complete sent_two (omega arith) shuffled
      ((omega arith, refl), ((omega arith, refl), ((omega arith, refl), ((omega arith, refl), tt))))
      shuffled-Covers

accept_all-shuffled : (accept_all shuffled initial).buffered ≡ []
unfolding accept_all accept flush emplace lookup erase
accept_all-shuffled = refl

abbrev gap_filled : Channel
gap_filled = record {
  next_seq = 1;
  unacked = [];
  next_expected = 2;
  buffered = (2, chat 6) ∷ (3, chat 7) ∷ (5, chat 9) ∷ [];
  ready = [];
}

flush_gap : (flush 3 gap_filled).next_expected ≡ 4
unfolding flush lookup erase
flush_gap = refl

abbrev waiting : Channel
waiting = record {
  next_seq = 3;
  unacked = (1, chat 5) ∷ (2, chat 6) ∷ [];
  next_expected = 1;
  buffered = [];
  ready = [];
}

waiting-Fits : All Fits waiting.unacked
waiting-Fits =
    ((omega arith, omega arith, omega arith), ((omega arith, omega arith, omega arith), tt))

read_packet-write_packet_example :
    read_packet (write_packet 1200 waiting) initial
    ≡ (true, take_in (local_ack waiting) (chosen 1200 waiting) initial)
read_packet-write_packet_example =
    read_packet-write_packet 1200 waiting initial (omega arith) waiting-Fits

read_packet_foreign : read_packet (1 ∷ 2 ∷ 3 ∷ 4 ∷ 5 ∷ 6 ∷ []) initial ≡ (false, initial)
unfolding read_packet read_u32
read_packet_foreign = refl
