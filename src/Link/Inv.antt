-- ===== src/Link/Inv.antt =====
-- The invariant of two joined channels.
use deepspace_outpost_dx.Base.{
  length, get_elem?, All, length-append, All-mono, get_elem?-lt, get_elem?-append_left,
  take-append_left, lookup, ℕ, ◌+◌, ◌-◌, ◌^◌, ◌≤◌, ◌<◌, ◌≡◌, sym, ◌∙◌, List, ◌++◌, arith,
}
use deepspace_outpost_dx.Channel.{ReliableMessage, Entry, Channel}
use deepspace_outpost_dx.Channel.Delivery.{IsGenuine, Delivered}
use deepspace_outpost_dx.Channel.Codec.{Fits, packet_bytes}
use deepspace_outpost_dx.Link.{Peer}

-- A datagram that a peer wrote: its messages are among those sent, and it acknowledges only numbers
-- below the one that the writer expects.
pub record Honest (sent : List ReliableMessage) (expected : ℕ) (bytes : List ℕ) : Type 0 where
  pub ack : ℕ
  pub entries : List Entry
  pub content : bytes ≡ packet_bytes ack entries
  pub ack_fits : ack < 2 ^ 32
  pub ack_old : ack < expected
  pub count : length entries < 2 ^ 16
  pub fits : All Fits entries
  pub genuine : All (IsGenuine sent) entries

-- What a peer by itself keeps.
pub record Sound (p : Peer) : Type 0 where
  pub numbered : p.chan.next_seq ≡ length p.sent + 1
  pub short : length p.sent + 1 < 2 ^ 32
  pub fits : All Fits p.chan.unacked
  pub own : All (IsGenuine p.sent) p.chan.unacked
  pub honest : All (Honest p.sent p.chan.next_expected) p.wire

-- The messages from the first peer to the second.
pub record Direction (p q : Peer) : Type 0 where
  pub delivered : Delivered p.sent q.got q.chan
  pub kept :
      (k : ℕ)
      → q.chan.next_expected ≤ k
      → k ≤ length p.sent
      → lookup k p.chan.unacked ≡ get_elem? p.sent (k - 1)

pub record Inv (s : Peer × Peer) : Type 0 where
  pub left : Sound s.0
  pub right : Sound s.1
  pub forth : Direction s.0 s.1
  pub back : Direction s.1 s.0

IsGenuine-append :
    (sent more : List ReliableMessage) (e : Entry) → IsGenuine sent e → IsGenuine (sent ++ more) e
IsGenuine-append sent more (seq, m) g =
    (g.0, get_elem?-append_left sent more (seq - 1) (get_elem?-lt sent (seq - 1) m g.1) ∙ g.1)

pub All-IsGenuine-append :
    (sent more : List ReliableMessage) (d : List Entry)
    → All (IsGenuine sent) d
    → All (IsGenuine (sent ++ more)) d
All-IsGenuine-append sent more d = All-mono (IsGenuine sent) _ d (IsGenuine-append sent more)

pub Honest-mono :
    (sent more : List ReliableMessage) (m n : ℕ) (bytes : List ℕ)
    → m ≤ n
    → Honest sent m bytes
    → Honest (sent ++ more) n bytes
Honest-mono sent more m n bytes h v = record {
  ack = v.ack;
  entries = v.entries;
  content = v.content;
  ack_fits = v.ack_fits;
  ack_old = omega arith;
  count = v.count;
  fits = v.fits;
  genuine = All-IsGenuine-append sent more v.entries v.genuine;
}

pub Honest-later :
    (sent : List ReliableMessage) (m n : ℕ) (bytes : List ℕ)
    → m ≤ n
    → Honest sent m bytes
    → Honest sent n bytes
Honest-later sent m n bytes h v = record {
  ack = v.ack;
  entries = v.entries;
  content = v.content;
  ack_fits = v.ack_fits;
  ack_old = omega arith;
  count = v.count;
  fits = v.fits;
  genuine = v.genuine;
}

pub Delivered-append :
    (sent more past : List ReliableMessage) (c : Channel)
    → Delivered sent past c
    → Delivered (sent ++ more) past c
Delivered-append sent more past c v = record {
  in_order = v.in_order ∙ sym (take-append_left (c.next_expected - 1) sent more (omega arith));
  started = v.started;
  bounded = omega (arith, length-append sent more);
  genuine = All-IsGenuine-append sent more c.buffered v.genuine;
}
