-- ===== src/Framing.antt =====
-- NeuronCore/Messages/Framing.h: packets of length-prefixed records, for one lane.
-- A message is given by its id and its encoding, what `Raw(M::Id)` and `Encode(_m)` yield.
pub mod RoundTrip
pub mod Robust
pub mod Sound
mod Tests
use deepspace_outpost_dx.Base.{
  ltb, ◌==◌, if◌then◌else◌, length, ℕ, zero, suc, ◌%◌, ◌^◌, Bool, true, false, not, Option, none,
  some, List, [], ◌∷◌, ◌++◌,
}
use deepspace_outpost_dx.Wire.{
  write_u8, write_u16, write_u32, write_u64, write_bytes, Reader, open_reader, read_u8, read_u16,
  read_u32, read_u64, read_bytes, ok, remaining,
}

abbrev pub message_magic : ℕ
message_magic = 0x4E4D5347

abbrev pub protocol_version : ℕ
protocol_version = 4

unfoldable pub peek_message_magic : List ℕ → ℕ
peek_message_magic bytes = if ltb (length bytes) 4 then 0 else (read_u32 (open_reader bytes)).0

pub record Record : Type 0 where
  pub id : ℕ
  pub payload : List ℕ

pub record PacketHeader : Type 0 where
  pub lane : ℕ
  pub token : ℕ

-- The constructor of PacketWriter, and `Add`. The buffer is all its state.
unfoldable pub packet_writer : ℕ → ℕ → List ℕ
packet_writer lane token =
    write_u64 token (write_u8 lane (write_u16 protocol_version (write_u32 message_magic [])))

unfoldable pub add : Record → List ℕ → List ℕ
add m w = write_bytes m.payload (write_u16 (length m.payload % 2 ^ 16) (write_u16 m.id w))

unfoldable pub add_all : List Record → List ℕ → List ℕ
add_all [] w = w
add_all (m ∷ ms) w = add_all ms (add m w)

-- One round of the loop of ReadPacket; `none` is its `return false`.
unfoldable pub read_record : Reader → Option (Record × Reader)
read_record r =
    let (id, r₁) = read_u16 r in
    let (len, r₂) = read_u16 r₁ in
    let (payload, r₃) = read_bytes len r₂ in
    if not (ok r₂)
    then none
    else if ltb (remaining r₂) len
    then none
    else if not (ok r₃)
    then none
    else some (record { id = id; payload = payload }, r₃)

-- Each round takes four bytes at least; `read_packet` gives as many rounds as there are bytes.
unfoldable pub read_records : ℕ → List Record → Reader → Bool × List Record
read_records zero out r = (remaining r == 0, out)
read_records (suc fuel) out r =
    let rest : Bool × List Record = elim (read_record r) [
      | none ↦ (false, out)
      | some (m, r') ↦ read_records fuel (out ++ m ∷ []) r'
    ] in
    if remaining r == 0 then (true, out) else rest

-- The answer, and the two out parameters as they are then.
unfoldable pub read_packet : List ℕ → PacketHeader → List Record → Bool × PacketHeader × List Record
read_packet bytes hdr out =
    let (magic, r₁) = read_u32 (open_reader bytes) in
    let (version, r₂) = read_u16 r₁ in
    let (lane, r₃) = read_u8 r₂ in
    let (token, r₄) = read_u64 r₃ in
    let header : PacketHeader = record { lane = lane; token = token } in
    let (done, records) = read_records (length bytes) [] r₄ in
    if not (magic == message_magic)
    then (false, hdr, out)
    else if not (version == protocol_version)
    then (false, hdr, out)
    else if not (ok r₄)
    then (false, header, out)
    else (done, header, records)
