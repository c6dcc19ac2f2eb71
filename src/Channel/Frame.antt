-- ===== src/Channel/Frame.antt =====
-- The outgoing half of a channel, and what was delivered before, while messages come in.
use deepspace_outpost_dx.Base.{
  length, All, get_elem?-lt, lookup, lookup-All, All-erase, ℕ, ◌+◌, ◌-◌, ◌%◌, ◌^◌, ◌≤◌, ◌<◌, ◌≡◌,
  refl, subst, ◌∙◌, List, [], ◌∷◌, ◌++◌, arith,
}
use deepspace_outpost_dx.Channel.{ReliableMessage, Entry, Channel, drop_acked, flush, accept}
use deepspace_outpost_dx.Channel.Flush.{flush_inv, arrive, accept_cases}
use deepspace_outpost_dx.Channel.Delivery.{
  IsGenuine, Delivered, hand_out-Delivered, accept-Delivered,
}
use deepspace_outpost_dx.Channel.Progress.{accept_all}

pub record Extends (c c' : Channel) : Type 0 where
  pub same_seq : c'.next_seq ≡ c.next_seq
  pub same_unacked : c'.unacked ≡ c.unacked
  pub later : c.next_expected ≤ c'.next_expected

Extends-refl : (c : Channel) → Extends c c
Extends-refl c = record { same_seq = refl; same_unacked = refl; later = omega arith }

Extends-trans : (b c d : Channel) → Extends b c → Extends c d → Extends b d
Extends-trans b c d h k = record {
  same_seq = k.same_seq ∙ h.same_seq;
  same_unacked = k.same_unacked ∙ h.same_unacked;
  later = omega arith;
}

module _ (sent past : List ReliableMessage) (fits : length sent + 1 < 2 ^ 32) where
  hand_out-Extends :
      (b c : Channel) (m : ReliableMessage) (d : List Entry)
      → IsGenuine sent (c.next_expected, m)
      → Extends b c
      → Extends b (record c {
        ready = c.ready ++ m ∷ [];
        buffered = d;
        next_expected = (c.next_expected + 1) % 2 ^ 32;
      })
  hand_out-Extends b c m d g h =
      let inside : c.next_expected - 1 < length sent = get_elem?-lt sent _ m g.1 in
      record { same_seq = h.same_seq; same_unacked = h.same_unacked; later = omega arith }

  flush-Extends :
      (b : Channel) (fuel : ℕ) (c : Channel)
      → Delivered sent past c
      → Extends b c
      → Extends b (flush fuel c)
  flush-Extends b fuel c v h =
      (flush_inv (λ c. Delivered sent past c × Extends b c)
        (λ c m e p.
          let g = lookup-All (IsGenuine sent) _ c.buffered m p.0.genuine e in
          (
            hand_out-Delivered sent past fits c m _ g
                (All-erase (IsGenuine sent) c.next_expected c.buffered p.0.genuine) p.0,
            hand_out-Extends b c m _ g p.1,
          ))
        fuel c (v, h)).1

  accept-Extends :
      (seq : ℕ) (m : ReliableMessage) (c : Channel)
      → IsGenuine sent (seq, m)
      → Delivered sent past c
      → Extends c (accept seq m c)
  accept-Extends seq m c g v =
      accept_cases (Extends c) seq m c (λ _. Extends-refl c)
        (λ e.
          let now = subst (λ k. IsGenuine sent (k, m)) e g in
          flush-Extends c _ (arrive m c)
            (hand_out-Delivered sent past fits c m c.buffered now v.genuine v)
            (hand_out-Extends c c m c.buffered now (Extends-refl c)))
        (λ _. record { same_seq = refl; same_unacked = refl; later = omega arith })

  -- All messages of a packet together.
  pub accept_all-Extends :
      (d : List Entry) (c : Channel)
      → All (IsGenuine sent) d
      → Delivered sent past c
      → Delivered sent past (accept_all d c) × Extends c (accept_all d c)
  unfolding accept_all
  accept_all-Extends [] c g v = (v, Extends-refl c)
  accept_all-Extends ((seq, m) ∷ d) c g v =
      let rest =
        accept_all-Extends d (accept seq m c) g.1 (accept-Delivered sent past fits seq m c g.0 v) in
      (rest.0, Extends-trans c _ _ (accept-Extends seq m c g.0 v) rest.1)

-- An acknowledgement drops no message after it.
pub lookup-drop_acked :
    (ack k : ℕ) (d : List Entry) → ack < k → lookup k (drop_acked ack d) ≡ lookup k d
unfolding lookup drop_acked
lookup-drop_acked ack k [] h = refl
lookup-drop_acked ack k ((j, m) ∷ d) h = ground (arith, lookup-drop_acked ack k d)

pub drop_acked-All :
    (P : Entry → Type 0) (ack : ℕ) (d : List Entry) → All P d → All P (drop_acked ack d)
unfolding drop_acked
drop_acked-All P ack [] h = tt
drop_acked-All P ack ((j, m) ∷ d) h = ground (arith, drop_acked-All P ack d h.1)
