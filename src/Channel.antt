-- ===== src/Channel.antt =====
-- NeuronCore/ReliableChannel.h: sequenced, acknowledged, ordered messages over datagrams.
pub mod Flush
pub mod Delivery
pub mod Progress
pub mod Frame
pub mod Codec
pub mod Size
mod Tests
use deepspace_outpost_dx.Base.{
  ltb, leb, ◌==◌, if◌then◌else◌, length, lookup, erase, ℕ, zero, suc, ◌+◌, ◌-◌, ◌%◌, ◌^◌, Bool,
  true, false, not, ◌&&◌, Option, none, some, List, [], ◌∷◌, ◌++◌,
}
use deepspace_outpost_dx.Wire.{
  write_u16, write_u32, write_bytes, Reader, open_reader, Read, ◌>>=◌, ◌>>◌, ret, read_u16,
  read_u32, read_bytes, ok,
}

abbrev pub event_magic : ℕ
event_magic = 0x4E455654

abbrev pub event_version : ℕ
event_version = 1

-- SAFE_UDP_PAYLOAD of NeuronCore/Replication.h.
abbrev pub safe_udp_payload : ℕ
safe_udp_payload = 1200

pub record ReliableMessage : Type 0 where
  pub type : ℕ
  pub payload : List ℕ

abbrev pub Entry : Type 0
Entry = ℕ × ReliableMessage

-- The maps are lists of entries; that of `unacked` is kept in the order of its keys.
pub record Channel : Type 0 where
  pub next_seq : ℕ
  pub unacked : List Entry
  pub next_expected : ℕ
  pub buffered : List Entry
  pub ready : List ReliableMessage

abbrev pub initial : Channel
initial = record { next_seq = 1; unacked = []; next_expected = 1; buffered = []; ready = [] }

-- `map::emplace`: the entry is placed by its key, and one that is there already stays.
unfoldable pub emplace : ℕ → ReliableMessage → List Entry → List Entry
emplace k m [] = (k, m) ∷ []
emplace k m ((j, n) ∷ d) =
    if k == j then (j, n) ∷ d else if ltb k j then (k, m) ∷ (j, n) ∷ d else (j, n) ∷ emplace k m d

unfoldable pub send : ReliableMessage → Channel → ℕ × Channel
send m c =
    let seq = c.next_seq in
    (seq, record c { next_seq = (seq + 1) % 2 ^ 32; unacked = emplace seq m c.unacked })

unfoldable pub local_ack : Channel → ℕ
local_ack c = (c.next_expected + 2 ^ 32 - 1) % 2 ^ 32

-- The entries that fit, the first one always; `fresh` is `chosen.empty()`.
unfoldable pub choose : Bool → ℕ → ℕ → List Entry → List Entry
choose fresh used max [] = []
choose fresh used max ((seq, m) ∷ d) =
    let size = 4 + 2 + 2 + length m.payload in
    let rest = choose false (used + size) max d in
    if not fresh && ltb max (used + size) then [] else (seq, m) ∷ rest

unfoldable pub write_entry : Entry → List ℕ → List ℕ
write_entry (seq, m) w =
    write_bytes m.payload
      (write_u16 (length m.payload % 2 ^ 16) (write_u16 m.type (write_u32 seq w)))

unfoldable pub write_entries : List Entry → List ℕ → List ℕ
unfolding write_entry
write_entries [] w = w
write_entries (e ∷ d) w = write_entries d (write_entry e w)

unfoldable pub write_packet : ℕ → Channel → List ℕ
write_packet max c =
    let header = write_u32 (local_ack c) (write_u16 event_version (write_u32 event_magic [])) in
    let chosen = choose true (4 + 2 + 4 + 2) max c.unacked in
    write_entries chosen (write_u16 (length chosen % 2 ^ 16) header)

-- Entries are erased from the front while their sequence is acknowledged.
unfoldable pub drop_acked : ℕ → List Entry → List Entry
drop_acked ack [] = []
drop_acked ack ((seq, m) ∷ d) =
    let rest = drop_acked ack d in if leb seq ack then rest else (seq, m) ∷ d

-- The loop that flushes buffered sequences now contiguous. Each round takes an entry out of
-- `buffered`, so `accept` gives it as many rounds as there are entries.
unfoldable pub flush : ℕ → Channel → Channel
flush zero c = c
flush (suc fuel) c = elim (lookup c.next_expected c.buffered) [
  | none ↦ c
  | some m ↦ flush fuel (record c {
    ready = c.ready ++ m ∷ [];
    buffered = erase c.next_expected c.buffered;
    next_expected = (c.next_expected + 1) % 2 ^ 32;
  })
]

-- One message of an incoming packet.
unfoldable pub accept : ℕ → ReliableMessage → Channel → Channel
accept seq m c =
    if ltb seq c.next_expected
    then c
    else if seq == c.next_expected
    then flush (length c.buffered)
        (record c { ready = c.ready ++ m ∷ []; next_expected = (c.next_expected + 1) % 2 ^ 32 })
    else record c { buffered = emplace seq m c.buffered }

unfoldable pub read_entry : Read Entry
read_entry = do
  seq ← read_u32
  type ← read_u16
  len ← read_u16
  payload ← read_bytes len
  ret (seq, record { type = type; payload = payload })

-- The loop over the `count` messages of a packet: it stops at the first that is cut short.
unfoldable pub read_entries : ℕ → Channel → Reader → Bool × Channel
read_entries zero c r = (ok r, c)
read_entries (suc n) c r =
    let (e, r') = read_entry r in
    let rest = read_entries n (accept e.0 e.1 c) r' in if ok r' then rest else (false, c)

unfoldable pub read_body : Channel → Reader → Bool × Channel
read_body c r =
    let (ack, r₁) = read_u32 r in
    let (count, r₂) = read_u16 r₁ in
    read_entries count (record c { unacked = drop_acked ack c.unacked }) r₂

unfoldable pub read_packet : List ℕ → Channel → Bool × Channel
read_packet bytes c =
    let (magic, r₁) = read_u32 (open_reader bytes) in
    let (version, r₂) = read_u16 r₁ in
    if magic == event_magic && version == event_version then read_body c r₂ else (false, c)

-- `none` is the answer false, which leaves `_out` alone.
unfoldable pub receive : Channel → Option ReliableMessage × Channel
receive c = elim c.ready [ [] ↦ (none, c) | m ∷ ms ↦ (some m, record c { ready = ms }) ]

unfoldable pub pending_outgoing : Channel → ℕ
pending_outgoing c = length c.unacked

unfoldable pub has_ready : Channel → Bool
has_ready c = elim c.ready [ [] ↦ false | _ ∷ _ ↦ true ]
