-- ===== src/Link.antt =====
-- Two reliable channels (NeuronCore/ReliableChannel.h) joined by a network that may lose, repeat
-- and reorder datagrams: any datagram that was written may come in, at any time, any number of times.
pub mod Inv
pub mod Steps
pub mod Safety
mod Tests
use deepspace_outpost_dx.Base.{
  length, get_elem?, to_list, ℕ, ◌+◌, ◌^◌, ◌<◌, ◌≡◌, some, List, [], ◌∷◌, ◌++◌,
}
use deepspace_outpost_dx.Channel.{
  ReliableMessage, Channel, initial, send, write_packet, read_packet, receive,
}

-- A channel with its history: what its owner sent, what it took out, and the datagrams it wrote.
pub record Peer : Type 0 where
  pub chan : Channel
  pub sent : List ReliableMessage
  pub got : List ReliableMessage
  pub wire : List (List ℕ)

abbrev pub fresh : Peer
fresh = record { chan = initial; sent = []; got = []; wire = [] }

unfoldable pub do_send : ReliableMessage → Peer → Peer
do_send m p = record p { chan = (send m p.chan).1; sent = p.sent ++ m ∷ [] }

unfoldable pub do_write : ℕ → Peer → Peer
do_write max p = record p { wire = write_packet max p.chan ∷ p.wire }

unfoldable pub do_read : List ℕ → Peer → Peer
do_read bytes p = record p { chan = (read_packet bytes p.chan).1 }

unfoldable pub do_receive : Peer → Peer
do_receive p = let (m, c) = receive p.chan in record p { chan = c; got = p.got ++ to_list m }

-- The steps of the first peer; `other` lets the second one move. Sequence numbers do not wrap as
-- long as less than 2 ^ 32 - 2 messages are sent.
pub data Step : Peer × Peer → Peer × Peer → Type 0 where
  sends :
      (p q : Peer) (m : ReliableMessage)
      → m.type < 2 ^ 16
      → length m.payload < 2 ^ 16
      → length p.sent + 2 < 2 ^ 32
      → Step (p, q) (do_send m p, q)
  writes : (p q : Peer) (max : ℕ) → max < 2 ^ 16 → Step (p, q) (do_write max p, q)
  reads :
      (p q : Peer) (i : ℕ) (bytes : List ℕ)
      → get_elem? q.wire i ≡ some bytes
      → Step (p, q) (do_read bytes p, q)
  receives : (p q : Peer) → Step (p, q) (do_receive p, q)
  other : {p q p' q' : Peer} → Step (q, p) (q', p') → Step (p, q) (p', q')

pub data Reach : Peer × Peer → Type 0 where
  start : Reach (fresh, fresh)
  next : {s t : Peer × Peer} → Reach s → Step s t → Reach t
