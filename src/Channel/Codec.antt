-- ===== src/Channel/Codec.antt =====
-- The bytes of a packet, from WritePacket to ReadPacket.
use deepspace_outpost_dx.Base.{
  length, All, ℕ, ◌+◌, ◌%◌, ◌^◌, ◌<◌, ◌≡◌, refl, sym, ap, ◌∙◌, Bool, true, false, List, [], ◌∷◌,
  ◌++◌, append_assoc, append-nil, arith,
}
use deepspace_outpost_dx.Wire.{reader, ok}
use deepspace_outpost_dx.Wire.RoundTrip.{
  bytes_u16, bytes_u32, writes, read_u16_lem, read_u32_lem, read_bytes_lem,
}
use deepspace_outpost_dx.Channel.{
  event_magic, event_version, Entry, Channel, local_ack, choose, write_entry, write_entries,
  write_packet, drop_acked, accept, read_entry, read_entries, read_body, read_packet,
}
use deepspace_outpost_dx.Channel.Progress.{accept_all}

-- The fields of a message that the packet holds fit their widths.
abbrev pub Fits : Entry → Type 0
Fits (seq, m) = (seq < 2 ^ 32) × (m.type < 2 ^ 16) × (length m.payload < 2 ^ 16)

abbrev pub entry_bytes : Entry → List ℕ
entry_bytes (seq, m) =
    bytes_u32 seq ++ (bytes_u16 m.type ++ (bytes_u16 (length m.payload) ++ m.payload))

abbrev pub entries_bytes : List Entry → List ℕ
entries_bytes [] = []
entries_bytes (e ∷ d) = entry_bytes e ++ entries_bytes d

write_entry_lem : (e : Entry) (w : List ℕ) → Fits e → write_entry e w ≡ w ++ entry_bytes e
unfolding write_entry
write_entry_lem (seq, m) w f =
    let small : length m.payload % 2 ^ 16 ≡ length m.payload = omega arith in rw small (simp writes)

write_entries_lem :
    (d : List Entry) (w : List ℕ) → All Fits d → write_entries d w ≡ w ++ entries_bytes d
unfolding write_entries
write_entries_lem [] w f = sym (append-nil w)
write_entries_lem ((seq, m) ∷ d) w f =
    write_entries_lem d (write_entry (seq, m) w) f.1
    ∙ ap (λ l. l ++ entries_bytes d) (write_entry_lem (seq, m) w f.0)
    ∙ append_assoc w _ _

read_entry_lem :
    (e : Entry) (bs : List ℕ)
    → Fits e
    → read_entry (reader (entry_bytes e ++ bs) false) ≡ (e, reader bs false)
read_entry_lem (seq, m) bs f = simp append_assoc (rest)
  where
    rest :
        read_entry (
          reader
            (bytes_u32 seq
              ++ (bytes_u16 m.type ++ (bytes_u16 (length m.payload) ++ (m.payload ++ bs))))
            false)
        ≡ ((seq, m), reader bs false)
    rest =
        unfold read_entry in
        rw (
          read_u32_lem seq (bytes_u16 m.type ++ (bytes_u16 (length m.payload) ++ (m.payload ++ bs)))
              false f.0,
          read_u16_lem m.type (bytes_u16 (length m.payload) ++ (m.payload ++ bs)) false f.1,
          read_u16_lem (length m.payload) (m.payload ++ bs) false f.2,
          read_bytes_lem m.payload bs false,
        )

-- The whole packet: the header, the acknowledgement and the messages.
abbrev pub packet_bytes : ℕ → List Entry → List ℕ
packet_bytes ack d =
    bytes_u32 event_magic
    ++ (bytes_u16 event_version ++ (bytes_u32 ack ++ (bytes_u16 (length d) ++ entries_bytes d)))

pub choose-All :
    (P : Entry → Type 0) (fresh : Bool) (used max : ℕ) (d : List Entry)
    → All P d
    → All P (choose fresh used max d)
unfolding choose
choose-All P fresh used max [] h = tt
choose-All P fresh used max ((seq, m) ∷ d) h =
    ground (arith, choose-All P false (used + (4 + 2 + 2 + length m.payload)) max d h.1)

-- The messages that a packet of at most `max` bytes takes.
abbrev pub chosen : ℕ → Channel → List Entry
chosen max c = choose true (4 + 2 + 4 + 2) max c.unacked

pub write_packet_lem :
    (max : ℕ) (c : Channel)
    → All Fits c.unacked
    → length (chosen max c) < 2 ^ 16
    → write_packet max c ≡ packet_bytes (local_ack c) (chosen max c)
unfolding write_packet
write_packet_lem max c f n =
    let small : length (chosen max c) % 2 ^ 16 ≡ length (chosen max c) = omega arith in
    write_entries_lem (chosen max c) _ (choose-All Fits true _ max c.unacked f)
    ∙ rw small (simp writes)

read_entries_lem :
    (d : List Entry) (c : Channel)
    → All Fits d
    → read_entries (length d) c (reader (entries_bytes d) false) ≡ (true, accept_all d c)
unfolding read_entries accept_all ok
read_entries_lem [] c f = refl
read_entries_lem ((seq, m) ∷ d) c f =
    ground (
      arith,
      read_entry_lem (seq, m) (entries_bytes d) f.0,
      read_entries_lem d (accept seq m c) f.1,
    )

-- What ReadPacket does with the content of a packet.
abbrev pub take_in : ℕ → List Entry → Channel → Channel
take_in ack d c = accept_all d (record c { unacked = drop_acked ack c.unacked })

pub read_packet_lem :
    (ack : ℕ) (d : List Entry) (c : Channel)
    → ack < 2 ^ 32
    → length d < 2 ^ 16
    → All Fits d
    → read_packet (packet_bytes ack d) c ≡ (true, take_in ack d c)
unfolding read_packet
read_packet_lem ack d c ha hn f =
    rw
      (
        read_u32_lem event_magic
            (bytes_u16 event_version
              ++ (bytes_u32 ack ++ (bytes_u16 (length d) ++ entries_bytes d)))
            false (omega arith),
        read_u16_lem event_version (bytes_u32 ack ++ (bytes_u16 (length d) ++ entries_bytes d))
            false (omega arith),
      )
      (body)
  where
    body :
        read_body c (reader (bytes_u32 ack ++ (bytes_u16 (length d) ++ entries_bytes d)) false)
        ≡ (true, take_in ack d c)
    body =
        unfold read_body in
        rw
          (
            read_u32_lem ack (bytes_u16 (length d) ++ entries_bytes d) false ha,
            read_u16_lem (length d) (entries_bytes d) false hn,
          )
          (read_entries_lem d _ f)
