-- ===== src/Framing/RoundTrip.antt =====
-- The bytes of a packet of records, from PacketWriter to ReadPacket.
use deepspace_outpost_dx.Base.{
  ltb, length, All, length-append, ℕ, zero, suc, ◌%◌, ◌^◌, ◌≤◌, ◌<◌, ◌≡◌, sym, ap, ◌∙◌, true, false,
  some, List, [], ◌∷◌, ◌++◌, append_assoc, append-nil, arith,
}
use deepspace_outpost_dx.Wire.{write_u8, reader, read_u8, ok, remaining}
use deepspace_outpost_dx.Wire.RoundTrip.{
  bytes_u16, bytes_u32, bytes_u64, writes, read_u16_lem, read_u32_lem, read_u64_lem, read_bytes_lem,
}
use deepspace_outpost_dx.Framing.{
  message_magic, protocol_version, Record, PacketHeader, packet_writer, add, add_all, read_record,
  read_records, read_packet,
}

abbrev pub FitsRecord : Record → Type 0
FitsRecord m = (m.id < 2 ^ 16) × (length m.payload < 2 ^ 16)

abbrev pub record_bytes : Record → List ℕ
record_bytes m = bytes_u16 m.id ++ (bytes_u16 (length m.payload) ++ m.payload)

abbrev pub records_bytes : List Record → List ℕ
records_bytes [] = []
records_bytes (m ∷ ms) = record_bytes m ++ records_bytes ms

abbrev pub header_bytes : ℕ → ℕ → List ℕ
header_bytes lane token =
    bytes_u32 message_magic ++ (bytes_u16 protocol_version ++ (lane ∷ bytes_u64 token))

pub packet_writer_lem : (lane token : ℕ) → packet_writer lane token ≡ header_bytes lane token
unfolding packet_writer write_u8
packet_writer_lem lane token = simp writes

add_lem : (m : Record) (w : List ℕ) → FitsRecord m → add m w ≡ w ++ record_bytes m
unfolding add
add_lem m w f =
    let small : length m.payload % 2 ^ 16 ≡ length m.payload = omega arith in rw small (simp writes)

pub add_all_lem :
    (ms : List Record) (w : List ℕ) → All FitsRecord ms → add_all ms w ≡ w ++ records_bytes ms
unfolding add_all
add_all_lem [] w f = sym (append-nil w)
add_all_lem (m ∷ ms) w f =
    add_all_lem ms (add m w) f.1
    ∙ ap (λ l. l ++ records_bytes ms) (add_lem m w f.0)
    ∙ append_assoc w _ _

read_record_lem :
    (m : Record) (bs : List ℕ)
    → FitsRecord m
    → read_record
        (reader (bytes_u16 m.id ++ (bytes_u16 (length m.payload) ++ (m.payload ++ bs))) false)
      ≡ some (m, reader bs false)
unfolding read_record remaining ok
read_record_lem m bs f =
    let enough : ltb (length (m.payload ++ bs)) (length m.payload) ≡ false =
      ground (arith, length-append m.payload bs) in
    rw (
      read_u16_lem m.id (bytes_u16 (length m.payload) ++ (m.payload ++ bs)) false f.0,
      read_u16_lem (length m.payload) (m.payload ++ bs) false f.1,
      read_bytes_lem m.payload bs false,
      enough,
    )

read_record_step :
    (fuel : ℕ) (m : Record) (bs : List ℕ) (out : List Record)
    → FitsRecord m
    → read_records
        (suc fuel)
        out
        (reader (bytes_u16 m.id ++ (bytes_u16 (length m.payload) ++ (m.payload ++ bs))) false)
      ≡ read_records fuel (out ++ m ∷ []) (reader bs false)
unfolding read_records remaining
read_record_step fuel m bs out f = ground (arith, read_record_lem m bs f)

length-records_bytes :
    (m : Record) (ms : List Record) → length (records_bytes ms) < length (records_bytes (m ∷ ms))
length-records_bytes m ms = omega (arith, length-append m.payload (records_bytes ms))

read_records_lem :
    (ms out : List Record) (fuel : ℕ)
    → All FitsRecord ms
    → length (records_bytes ms) ≤ fuel
    → read_records fuel out (reader (records_bytes ms) false) ≡ (true, out ++ ms)
read_records_lem [] out zero f h =
    unfold read_records remaining in ap (λ l. (true, l)) (sym (append-nil out))
read_records_lem [] out (suc fuel) f h =
    unfold read_records remaining in ap (λ l. (true, l)) (sym (append-nil out))
read_records_lem (m ∷ ms) out zero f h = absurd (omega (arith, length-records_bytes m ms))
read_records_lem (m ∷ ms) out (suc fuel) f h =
    ap (λ l. read_records (suc fuel) out (reader l false)) (simp append_assoc)
    ∙ read_record_step fuel m (records_bytes ms) out f.0
    ∙ read_records_lem ms (out ++ m ∷ []) fuel f.1 (omega (arith, length-records_bytes m ms))
    ∙ ap (λ l. (true, l)) (append_assoc out (m ∷ []) ms)

-- A packet of any records that fit the widths of their fields, under a token of 64 bits, is read
-- back as it was: its lane, its token and its records in order, with nothing left over of what the
-- output held before.
pub read_packet-add_all :
    (lane token : ℕ) (ms out : List Record) (hdr : PacketHeader)
    → token < 2 ^ 64
    → All FitsRecord ms
    → read_packet (add_all ms (packet_writer lane token)) hdr out
      ≡ (true, record { lane = lane; token = token }, ms)
unfolding read_packet read_u8 ok
read_packet-add_all lane token ms out hdr ht f =
    ap (λ l. read_packet l hdr out) whole
    ∙ rw (
      read_u32_lem message_magic
          (bytes_u16 protocol_version ++ (lane ∷ (bytes_u64 token ++ records_bytes ms))) false
          (omega arith),
      read_u16_lem protocol_version (lane ∷ (bytes_u64 token ++ records_bytes ms)) false
          (omega arith),
      read_u64_lem token (records_bytes ms) false ht,
      read_records_lem ms []
          (length (
            bytes_u32 message_magic
            ++ (bytes_u16 protocol_version ++ (lane ∷ (bytes_u64 token ++ records_bytes ms)))))
          f (omega arith),
    )
  where
    whole :
        add_all ms (packet_writer lane token)
        ≡ bytes_u32 message_magic
          ++ (bytes_u16 protocol_version ++ (lane ∷ (bytes_u64 token ++ records_bytes ms)))
    whole = add_all_lem ms _ f ∙ rw packet_writer_lem (simp append_assoc)
