-- ===== src/Framing/Sound.antt =====
-- ReadPacket on the bytes that anybody may send.
use mathlib.Core.Path.{subst₂}
use deepspace_outpost_dx.Base.{
  length, All, ℕ, ◌^◌, ◌<◌, ◌≡◌, refl, sym, ap, ap₂, subst, ◌∙◌, true, false, List, [], ◌∷◌, ◌++◌,
  append_assoc, arith,
}
use deepspace_outpost_dx.Wire.{Reader, open_reader, read_u8, read_u16, read_u32, read_u64, ok}
use deepspace_outpost_dx.Wire.RoundTrip.{bytes_u16, bytes_u32}
use deepspace_outpost_dx.Wire.Bounds.{advance_u8, advance_u16, advance_u32}
use deepspace_outpost_dx.Wire.Sound.{IsByte, Took-u8, left_bytes, Took-u16, Took-u32, Took-u64}
use deepspace_outpost_dx.Framing.{
  message_magic, protocol_version, Record, PacketHeader, packet_writer, add_all, read_records,
  read_packet,
}
use deepspace_outpost_dx.Framing.Robust.{Parsed, read_records_sound}
use deepspace_outpost_dx.Framing.RoundTrip.{
  FitsRecord, records_bytes, header_bytes, packet_writer_lem, add_all_lem,
}

-- The readers between the fields of the header.
abbrev after_version : List ℕ → Reader
after_version bytes = (read_u16 (read_u32 (open_reader bytes)).1).1

abbrev after_lane : List ℕ → Reader
after_lane bytes = (read_u8 (after_version bytes)).1

read_packet_cases :
    (bytes : List ℕ) (hdr h : PacketHeader) (out ms : List Record)
    → read_packet bytes hdr out ≡ (true, h, ms)
    → ((read_u32 (open_reader bytes)).0 ≡ message_magic)
      × ((read_u16 (read_u32 (open_reader bytes)).1).0 ≡ protocol_version)
      × ((read_u64 (after_lane bytes)).1.failed ≡ false)
      × (h ≡ record {
        lane = (read_u8 (after_version bytes)).0;
        token = (read_u64 (after_lane bytes)).0;
      })
      × (read_records (length bytes) [] (read_u64 (after_lane bytes)).1 ≡ (true, ms))
unfolding read_packet ok
read_packet_cases bytes hdr h out ms e = ground arith

header_sound :
    (bytes : List ℕ)
    → All IsByte bytes
    → (read_u32 (open_reader bytes)).0 ≡ message_magic
    → (read_u16 (read_u32 (open_reader bytes)).1).0 ≡ protocol_version
    → (read_u64 (after_lane bytes)).1.failed ≡ false
    → let r = (read_u64 (after_lane bytes)).1 in
      let lane = (read_u8 (after_version bytes)).0 in
      let token = (read_u64 (after_lane bytes)).0 in
      All IsByte r.rest × (token < 2 ^ 64) × (bytes ≡ header_bytes lane token ++ r.rest)
header_sound bytes h magic version e =
    let r₁ = (read_u32 (open_reader bytes)).1 in
    let h₁ = left_bytes 4 (open_reader bytes) r₁ (advance_u32 (open_reader bytes)) h in
    let h₂ = left_bytes 2 r₁ (after_version bytes) (advance_u16 r₁) h₁ in
    let h₃ =
      left_bytes 1 (after_version bytes) (after_lane bytes) (advance_u8 (after_version bytes)) h₂ in
    let token = Took-u64 (after_lane bytes) h₃ e in
    let lane = Took-u8 (after_version bytes) h₂ token.was_ok in
    let second = Took-u16 r₁ h₁ lane.was_ok in
    let first = Took-u32 (open_reader bytes) h second.was_ok in
    (
      token.bytes_left,
      token.small,
      first.encoded
          ∙ ap₂ (λ n l. bytes_u32 n ++ l) magic second.encoded
          ∙ ap₂ (λ n l. bytes_u32 message_magic ++ (bytes_u16 n ++ l)) version lane.encoded
          ∙ ap
              (λ l.
                bytes_u32 message_magic
                ++ (bytes_u16 protocol_version ++ ((read_u8 (after_version bytes)).0 ∷ l)))
              token.encoded
          ∙ simp append_assoc,
    )

whole_packet :
    (lane token : ℕ) (ms : List Record)
    → All FitsRecord ms
    → add_all ms (packet_writer lane token) ≡ header_bytes lane token ++ records_bytes ms
whole_packet lane token ms f =
    add_all_lem ms _ f ∙ ap (λ l. l ++ records_bytes ms) (packet_writer_lem lane token)

-- Whatever bytes come in, a packet that is accepted is, byte for byte, one that PacketWriter writes
-- for the header and the records that are reported, and these fit the widths of their fields.
pub read_packet_sound :
    (bytes : List ℕ) (hdr h : PacketHeader) (out ms : List Record)
    → All IsByte bytes
    → read_packet bytes hdr out ≡ (true, h, ms)
    → (bytes ≡ add_all ms (packet_writer h.lane h.token)) × All FitsRecord ms × (h.token < 2 ^ 64)
read_packet_sound bytes hdr h out ms byte e =
    let (magic, version, good, same, parsed) = read_packet_cases bytes hdr h out ms e in
    let (byte', small, front) = header_sound bytes byte magic version good in
    let (ms', same', fits, back) =
      subst (Parsed [] (read_u64 (after_lane bytes)).1) parsed
        (read_records_sound (length bytes) [] _ byte') refl in
    subst₂
      (λ (x : PacketHeader) (l : List Record).
        (bytes ≡ add_all l (packet_writer x.lane x.token)) × All FitsRecord l × (x.token < 2 ^ 64))
      (sym same) (sym same')
      (
        front
            ∙ ap
                (λ l.
                  header_bytes (read_u8 (after_version bytes)).0 (read_u64 (after_lane bytes)).0
                  ++ l)
                back
            ∙ sym (whole_packet _ _ ms' fits),
        fits,
        small,
      )
