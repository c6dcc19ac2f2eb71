-- ===== src/Link/Steps.antt =====
-- The steps of the first peer, for the invariant of Link/Inv.antt.
use deepspace_outpost_dx.Base.{
  eq_cases, Option-cases, length, get_elem?, All, length-append, All-mono, All-get_elem?,
  get_elem?-lt, get_elem?-append_left, get_elem?-append_length, lookup, lookup-All, ℕ, ◌+◌, ◌-◌,
  ◌^◌, ◌≤◌, ◌<◌, ◌≡◌, refl, sym, ap, subst, ◌∙◌, inl, inr, Bool, true, none, some, List, [], ◌∷◌,
  ◌++◌, append_assoc, append-nil, arith,
}
use deepspace_outpost_dx.Channel.{
  ReliableMessage, Entry, Channel, emplace, send, local_ack, write_packet, drop_acked, read_packet,
  receive,
}
use deepspace_outpost_dx.Channel.Delivery.{IsGenuine, All-emplace, Delivered}
use deepspace_outpost_dx.Channel.Progress.{lookup-emplace_ne}
use deepspace_outpost_dx.Channel.Codec.{
  Fits, choose-All, chosen, write_packet_lem, take_in, read_packet_lem,
}
use deepspace_outpost_dx.Channel.Size.{count_fits}
use native.Mathlib.Nat.{le_trans}
use deepspace_outpost_dx.Channel.Frame.{
  Extends, accept_all-Extends, lookup-drop_acked, drop_acked-All,
}
use deepspace_outpost_dx.Link.{Peer, do_send, do_write, do_read, do_receive}
use deepspace_outpost_dx.Link.Inv.{
  Honest, Sound, Direction, Inv, All-IsGenuine-append, Honest-mono, Honest-later, Delivered-append,
}

-- The number that comes next is free.
lookup_free :
    (sent : List ReliableMessage) (k : ℕ) (d : List Entry)
    → All (IsGenuine sent) d
    → length sent < k
    → lookup k d ≡ none
lookup_free sent k d g h = elim (Option-cases (lookup k d)) [
  | inl e ↦ e
  | inr (m, e) ↦
      absurd (omega (arith, get_elem?-lt sent (k - 1) m (lookup-All (IsGenuine sent) k d m g e).1))
]

lookup-emplace_free :
    (k : ℕ) (m : ReliableMessage) (d : List Entry)
    → lookup k d ≡ none
    → lookup k (emplace k m d) ≡ some m
unfolding lookup emplace
lookup-emplace_free k m [] h = ground arith
lookup-emplace_free k m ((j, n) ∷ d) h = ground (arith, lookup-emplace_free k m d)

module _ (p q : Peer) where
  -- `do_send m p`, with its fields written out.
  abbrev sent_to : ReliableMessage → Peer
  sent_to m = record p {
    chan = record p.chan {
      next_seq = length p.sent + 2;
      unacked = emplace (length p.sent + 1) m p.chan.unacked;
    };
    sent = p.sent ++ m ∷ [];
  }

  new_IsGenuine : (m : ReliableMessage) → IsGenuine (p.sent ++ m ∷ []) (length p.sent + 1, m)
  new_IsGenuine m =
      let last : length p.sent + 1 - 1 ≡ length p.sent = omega arith in
      (omega arith, rw last (get_elem?-append_length p.sent m))

  do_send_lem :
      (m : ReliableMessage) → Sound p → length p.sent + 2 < 2 ^ 32 → do_send m p ≡ sent_to m
  unfolding do_send send
  do_send_lem m v h = rw (v.numbered) (ground arith)

  sent_to-Sound :
      (m : ReliableMessage)
      → Sound p
      → m.type < 2 ^ 16
      → length m.payload < 2 ^ 16
      → length p.sent + 2 < 2 ^ 32
      → Sound (sent_to m)
  sent_to-Sound m v t l h = record {
    numbered = omega (arith, length-append p.sent (m ∷ []));
    short = omega (arith, length-append p.sent (m ∷ []));
    fits = All-emplace Fits (length p.sent + 1) m p.chan.unacked (omega arith, t, l) v.fits;
    own =
        All-emplace (IsGenuine (p.sent ++ m ∷ [])) (length p.sent + 1) m p.chan.unacked
          (new_IsGenuine m) (All-IsGenuine-append p.sent (m ∷ []) p.chan.unacked v.own);
    honest =
        All-mono (Honest p.sent p.chan.next_expected) _ p.wire
          (λ b. Honest-mono p.sent (m ∷ []) _ _ b (omega arith)) v.honest;
  }

  sent_to-kept :
      (m : ReliableMessage)
      → Sound p
      → Direction p q
      → (k : ℕ) → q.chan.next_expected ≤ k
      → k ≤ length (p.sent ++ m ∷ [])
      → lookup k (sent_to m).chan.unacked ≡ get_elem? (p.sent ++ m ∷ []) (k - 1)
  sent_to-kept m v d k old new = elim (eq_cases (length p.sent + 1) k) [
    | inl e ↦
        subst (λ j. lookup j (sent_to m).chan.unacked ≡ get_elem? (p.sent ++ m ∷ []) (j - 1)) e
          (lookup-emplace_free (length p.sent + 1) m p.chan.unacked
              (lookup_free p.sent (length p.sent + 1) p.chan.unacked v.own (omega arith))
            ∙ sym (new_IsGenuine m).1)
    | inr e ↦
        let started = d.delivered.started in
        let size = length-append p.sent (m ∷ []) in
        lookup-emplace_ne (length p.sent + 1) k m p.chan.unacked e
        ∙ d.kept k old (omega arith)
        ∙ sym (get_elem?-append_left p.sent (m ∷ []) (k - 1) (omega arith))
  ]

  sent_to-Direction : (m : ReliableMessage) → Sound p → Direction p q → Direction (sent_to m) q
  sent_to-Direction m v d = record {
    delivered = Delivered-append p.sent (m ∷ []) q.got q.chan d.delivered;
    kept = sent_to-kept m v d;
  }

-- A send changes nothing for the messages that come the other way.
sent_to-Direction_back :
    (p q : Peer) (m : ReliableMessage) → Direction q p → Direction q (sent_to p q m)
sent_to-Direction_back p q m d = record {
  delivered = record {
    in_order = d.delivered.in_order;
    started = d.delivered.started;
    bounded = d.delivered.bounded;
    genuine = d.delivered.genuine;
  };
  kept = d.kept;
}

pub do_send-Inv :
    (p q : Peer) (m : ReliableMessage)
    → m.type < 2 ^ 16
    → length m.payload < 2 ^ 16
    → length p.sent + 2 < 2 ^ 32
    → Inv (p, q)
    → Inv (do_send m p, q)
do_send-Inv p q m t l h v = rw (do_send_lem p q m v.left h) (record {
  left = sent_to-Sound p q m v.left t l h;
  right = v.right;
  forth = sent_to-Direction p q m v.left v.forth;
  back = sent_to-Direction_back p q m v.back;
})

-- A datagram tells the truth about its writer.
write_packet-Honest :
    (p : Peer) (max : ℕ)
    → max < 2 ^ 16
    → Sound p
    → 0 < p.chan.next_expected
    → p.chan.next_expected < 2 ^ 32
    → Honest p.sent p.chan.next_expected (write_packet max p.chan)
unfolding local_ack
write_packet-Honest p max h v started small = record {
  ack = local_ack p.chan;
  entries = chosen max p.chan;
  content = write_packet_lem max p.chan v.fits (count_fits max p.chan h);
  ack_fits = omega arith;
  ack_old = omega arith;
  count = count_fits max p.chan h;
  fits = choose-All Fits true _ max p.chan.unacked v.fits;
  genuine = choose-All (IsGenuine p.sent) true _ max p.chan.unacked v.own;
}

pub do_write-Inv : (p q : Peer) (max : ℕ) → max < 2 ^ 16 → Inv (p, q) → Inv (do_write max p, q)
unfolding do_write
do_write-Inv p q max h v = record {
  left = record {
    numbered = v.left.numbered;
    short = v.left.short;
    fits = v.left.fits;
    own = v.left.own;
    honest = (
      write_packet-Honest p max h v.left v.back.delivered.started
          (let b = v.back.delivered.bounded in let s = v.right.short in omega arith),
      v.left.honest,
    );
  };
  right = v.right;
  forth = record { delivered = v.forth.delivered; kept = v.forth.kept };
  back = record { delivered = v.back.delivered; kept = v.back.kept };
}

module _ (p q : Peer) (ack : ℕ) (d : List Entry) where
  -- The peer after it has read a packet.
  abbrev reader_of : Peer
  reader_of = record p { chan = take_in ack d p.chan }

  abbrev settled : Channel
  settled = record p.chan { unacked = drop_acked ack p.chan.unacked }

  read-Delivered :
      All (IsGenuine q.sent) d
      → length q.sent + 1 < 2 ^ 32
      → Delivered q.sent p.got p.chan
      → Delivered q.sent p.got (take_in ack d p.chan) × Extends settled (take_in ack d p.chan)
  read-Delivered g s v = accept_all-Extends q.sent p.got s d settled g (record {
    in_order = v.in_order;
    started = v.started;
    bounded = v.bounded;
    genuine = v.genuine;
  })

  read-Sound : Extends settled (take_in ack d p.chan) → Sound p → Sound reader_of
  read-Sound e v = record {
    numbered = e.same_seq ∙ v.numbered;
    short = v.short;
    fits = subst (All Fits) (sym e.same_unacked) (drop_acked-All Fits ack p.chan.unacked v.fits);
    own =
        subst (All (IsGenuine p.sent)) (sym e.same_unacked)
          (drop_acked-All (IsGenuine p.sent) ack p.chan.unacked v.own);
    honest =
        All-mono (Honest p.sent p.chan.next_expected) _ p.wire
          (λ b h. Honest-later p.sent _ _ b e.later h) v.honest;
  }

  read-Inv : ack < q.chan.next_expected → All (IsGenuine q.sent) d → Inv (p, q) → Inv (reader_of, q)
  read-Inv old g v =
      let (delivered, e) = read-Delivered g v.right.short v.back.delivered in
      record {
        left = read-Sound e v.left;
        right = v.right;
        forth = record {
          delivered = v.forth.delivered;
          kept = λ k h l.
              ap (lookup k) e.same_unacked
              ∙ lookup-drop_acked ack k p.chan.unacked (omega arith)
              ∙ v.forth.kept k h l;
        };
        back = record {
          delivered = delivered;
          kept = λ k h l. v.back.kept k (le_trans e.later h) l;
        };
      }

pub do_read-Inv :
    (p q : Peer) (i : ℕ) (bytes : List ℕ)
    → get_elem? q.wire i ≡ some bytes
    → Inv (p, q)
    → Inv (do_read bytes p, q)
unfolding do_read
do_read-Inv p q i bytes e v =
    let h = All-get_elem? (Honest q.sent q.chan.next_expected) q.wire i bytes v.right.honest e in
    let r = read_packet_lem h.ack h.entries p.chan h.ack_fits h.count h.fits in
    subst (λ b. Inv (record p { chan = (read_packet b p.chan).1 }, q)) (sym h.content)
      (subst (λ c. Inv (record p { chan = c }, q)) (sym (ap (λ (x : Bool × Channel). x.1) r))
        (read-Inv p q h.ack h.entries h.ack_old h.genuine v))

receive-Delivered :
    (sent past ms : List ReliableMessage) (m : ReliableMessage) (c : Channel)
    → c.ready ≡ m ∷ ms
    → Delivered sent past c
    → Delivered sent (past ++ m ∷ []) (record c { ready = ms })
receive-Delivered sent past ms m c e v = record {
  in_order = append_assoc past (m ∷ []) ms ∙ ap (λ l. past ++ l) (sym e) ∙ v.in_order;
  started = v.started;
  bounded = v.bounded;
  genuine = v.genuine;
}

do_receive_nil : (p : Peer) → p.chan.ready ≡ [] → do_receive p ≡ p
unfolding do_receive receive
do_receive_nil p e = ground (arith, append-nil p.got)

do_receive_cons :
    (p : Peer) (m : ReliableMessage) (ms : List ReliableMessage)
    → p.chan.ready ≡ m ∷ ms
    → do_receive p ≡ record p { chan = record p.chan { ready = ms }; got = p.got ++ m ∷ [] }
unfolding do_receive receive
do_receive_cons p m ms e = ground arith

pub do_receive-Inv : (p q : Peer) → Inv (p, q) → Inv (do_receive p, q)
do_receive-Inv p q v = go p.chan.ready refl
  where
    go : (l : List ReliableMessage) → p.chan.ready ≡ l → Inv (do_receive p, q)
    go [] e = rw (do_receive_nil p e) v
    go (m ∷ ms) e = rw (do_receive_cons p m ms e) (record {
      left = record {
        numbered = v.left.numbered;
        short = v.left.short;
        fits = v.left.fits;
        own = v.left.own;
        honest = v.left.honest;
      };
      right = v.right;
      forth = record { delivered = v.forth.delivered; kept = v.forth.kept };
      back = record {
        delivered = receive-Delivered q.sent p.got ms m p.chan e v.back.delivered;
        kept = v.back.kept;
      };
    })
