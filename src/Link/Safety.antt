-- ===== src/Link/Safety.antt =====
-- Two joined channels, from bytes to bytes: safety of delivery.
use deepspace_outpost_dx.Base.{length, get_elem?, take, lookup, ℕ, ◌-◌, ◌≤◌, ◌≡◌, refl, ◌++◌, arith}
use deepspace_outpost_dx.Link.{
  Peer, fresh, Step, sends, writes, reads, receives, other, Reach, start, next,
}
use deepspace_outpost_dx.Link.Inv.{Sound, Direction, Inv}
use deepspace_outpost_dx.Link.Steps.{do_send-Inv, do_write-Inv, do_read-Inv, do_receive-Inv}

Inv-flip : (p q : Peer) → Inv (p, q) → Inv (q, p)
Inv-flip p q v = record { left = v.right; right = v.left; forth = v.back; back = v.forth }

Step-Inv : {s t : Peer × Peer} → Step s t → Inv s → Inv t
Step-Inv (sends p q m h l n) v = do_send-Inv p q m h l n v
Step-Inv (writes p q max h) v = do_write-Inv p q max h v
Step-Inv (reads p q i bytes h) v = do_read-Inv p q i bytes h v
Step-Inv (receives p q) v = do_receive-Inv p q v
Step-Inv (other {p} {q} {p'} {q'} st) v = Inv-flip q' p' (Step-Inv st (Inv-flip p q v))

fresh-Inv : Inv (fresh, fresh)
fresh-Inv = record { left = alone; right = alone; forth = way; back = way }
  where
    alone : Sound fresh
    alone = record { numbered = refl; short = omega arith; fits = tt; own = tt; honest = tt }

    way : Direction fresh fresh
    way = record {
      delivered = record {
        in_order = refl;
        started = omega arith;
        bounded = omega arith;
        genuine = tt;
      };
      kept = λ k lo hi. absurd (omega arith);
    }

Reach-Inv : {s : Peer × Peer} → Reach s → Inv s
Reach-Inv start = fresh-Inv
Reach-Inv (next r st) = Step-Inv st (Reach-Inv r)

-- In every state that two peers reach from fresh channels, over a network that loses, repeats and
-- reorders datagrams at will, as long as each peer sends fewer than 2 ^ 32 - 2 messages whose type
-- and payload length fit 16 bits and writes packets of less than 65536 bytes: what a peer has taken
-- out of its channel, followed by what is ready there, is the list of the messages that the other
-- peer sent first, one for each number below the expected one.
pub received_in_order :
    (p q : Peer) → Reach (p, q) → q.got ++ q.chan.ready ≡ take (q.chan.next_expected - 1) p.sent
received_in_order p q r = (Reach-Inv r).forth.delivered.in_order

-- In every state that two peers reach from fresh channels, over a network that loses, repeats and
-- reorders datagrams at will, as long as each peer sends fewer than 2 ^ 32 - 2 messages whose type
-- and payload length fit 16 bits and writes packets of less than 65536 bytes: the message of every
-- sequence number that the other peer sent and this one does not have in order yet is still among
-- the unacknowledged messages of the other peer, under its number.
pub undelivered_kept :
    (p q : Peer) (k : ℕ)
    → Reach (p, q)
    → q.chan.next_expected ≤ k
    → k ≤ length p.sent
    → lookup k p.chan.unacked ≡ get_elem? p.sent (k - 1)
undelivered_kept p q k r = (Reach-Inv r).forth.kept k
