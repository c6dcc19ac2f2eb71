-- ===== src/Framing/Tests.antt =====
-- Packets of records, whole and damaged.
use deepspace_outpost_dx.Base.{All, ℕ, ◌^◌, ◌<◌, ◌≡◌, refl, true, false, List, [], ◌∷◌, arith}
use deepspace_outpost_dx.Wire.{
  Reader, open_reader, read_u16, read_u32, read_u64, read_bytes, ok, remaining,
}
use deepspace_outpost_dx.Wire.Sound.{IsByte}
use deepspace_outpost_dx.Framing.{
  Record, PacketHeader, packet_writer, add_all, read_record, read_records, read_packet,
}
use deepspace_outpost_dx.Framing.RoundTrip.{FitsRecord, read_packet-add_all}
use deepspace_outpost_dx.Framing.Sound.{read_packet_sound}

abbrev two_records : List Record
two_records = record { id = 4; payload = 1 ∷ 2 ∷ [] } ∷ record { id = 5; payload = [] } ∷ []

two_records_fit : All FitsRecord two_records
two_records_fit = ((omega arith, omega arith), ((omega arith, omega arith), tt))

abbrev no_header : PacketHeader
no_header = record { lane = 0; token = 0 }

read_packet-add_all_example :
    read_packet (add_all two_records (packet_writer 1 77)) no_header []
    ≡ (true, record { lane = 1; token = 77 }, two_records)
read_packet-add_all_example =
    read_packet-add_all 1 77 two_records [] no_header (omega arith) two_records_fit

-- The bytes of a packet with the first of these records.
abbrev datagram : List ℕ
datagram =
    71 ∷ 83 ∷ 77 ∷ 78 ∷ 4 ∷ 0 ∷ 1 ∷ 77 ∷ 0 ∷ 0 ∷ 0 ∷ 0 ∷ 0 ∷ 0 ∷ 0 ∷ 4 ∷ 0 ∷ 2 ∷ 0 ∷ 1 ∷ 2 ∷ []

abbrev one_record : List Record
one_record = record { id = 4; payload = 1 ∷ 2 ∷ [] } ∷ []

datagram_reads :
    read_packet datagram no_header [] ≡ (true, record { lane = 1; token = 77 }, one_record)
unfolding read_packet read_records read_record read_u32 ok read_u64 remaining read_bytes
datagram_reads = refl

datagram_bytes : All IsByte datagram
datagram_bytes = ground arith

read_packet_sound_example :
    (datagram ≡ add_all one_record (packet_writer 1 77)) × All FitsRecord one_record × (77 < 2 ^ 64)
read_packet_sound_example =
    read_packet_sound datagram no_header (record { lane = 1; token = 77 }) [] one_record
      datagram_bytes datagram_reads

abbrev cut_short : Reader
cut_short = open_reader (4 ∷ 0 ∷ 2 ∷ 0 ∷ 1 ∷ [])

read_records-cut_short : read_records 5 [] cut_short ≡ (false, [])
unfolding read_records read_record remaining ok read_u16
read_records-cut_short = refl
