-- ===== src/Channel/Delivery.antt =====
-- What the receiving half of a channel hands out, whatever order, loss or repetition the network
-- makes of the messages that the peer sent.
use deepspace_outpost_dx.Base.{
  length, get_elem?, All, take, get_elem?-lt, take-suc, lookup, lookup-All, All-erase, ℕ, suc, ◌+◌,
  ◌-◌, ◌%◌, ◌^◌, ◌≤◌, ◌<◌, ◌≡◌, sym, ap, subst, ◌∙◌, some, List, [], ◌∷◌, ◌++◌, append_assoc, arith,
}
use deepspace_outpost_dx.Channel.Flush.{hand_out, flush_inv, arrive, accept_cases}
use deepspace_outpost_dx.Channel.{ReliableMessage, Entry, Channel, emplace, flush, accept}

-- The peer sent this message under this sequence number.
abbrev pub IsGenuine : List ReliableMessage → Entry → Type 0
IsGenuine sent (seq, m) = (0 < seq) × (get_elem? sent (seq - 1) ≡ some m)

pub All-emplace :
    (P : Entry → Type 0) (k : ℕ) (m : ReliableMessage) (d : List Entry)
    → P (k, m)
    → All P d
    → All P (emplace k m d)
unfolding emplace
All-emplace P k m [] p h = (p, tt)
All-emplace P k m ((j, n) ∷ d) p h = ground (arith, All-emplace P k m d p h.1)

-- The receiving half against what the peer sent: `past` has been taken out of `ready` already.
pub record Delivered (sent past : List ReliableMessage) (c : Channel) : Type 0 where
  pub in_order : past ++ c.ready ≡ take (c.next_expected - 1) sent
  pub started : 0 < c.next_expected
  pub bounded : c.next_expected ≤ length sent + 1
  pub genuine : All (IsGenuine sent) c.buffered

module _ (sent past : List ReliableMessage) (fits : length sent + 1 < 2 ^ 32) where
  -- The message of the expected number may be handed out.
  pub hand_out-Delivered :
      (c : Channel) (m : ReliableMessage) (d : List Entry)
      → IsGenuine sent (c.next_expected, m)
      → All (IsGenuine sent) d
      → Delivered sent past c
      → Delivered sent past (record c {
        ready = c.ready ++ m ∷ [];
        buffered = d;
        next_expected = (c.next_expected + 1) % 2 ^ 32;
      })
  hand_out-Delivered c m d g h v =
      let inside : c.next_expected - 1 < length sent = get_elem?-lt sent _ m g.1 in
      let step : (c.next_expected + 1) % 2 ^ 32 - 1 ≡ suc (c.next_expected - 1) = omega arith in
      record {
        in_order = rw step (
            sym (append_assoc past c.ready (m ∷ []))
            ∙ ap (λ l. l ++ m ∷ []) v.in_order
            ∙ take-suc (c.next_expected - 1) sent m g.1);
        started = omega arith;
        bounded = omega arith;
        genuine = h;
      }

  pub flush-Delivered :
      (fuel : ℕ) (c : Channel) → Delivered sent past c → Delivered sent past (flush fuel c)
  flush-Delivered fuel c v = flush_inv (Delivered sent past) keep fuel c v
    where
      keep :
          (c : Channel) (m : ReliableMessage)
          → lookup c.next_expected c.buffered ≡ some m
          → Delivered sent past c
          → Delivered sent past (hand_out m c)
      keep c m e v =
          hand_out-Delivered c m _ (lookup-All (IsGenuine sent) _ c.buffered m v.genuine e)
            (All-erase (IsGenuine sent) c.next_expected c.buffered v.genuine) v

  -- A message of the peer, in whatever order it comes, leaves what is handed out in order.
  pub accept-Delivered :
      (seq : ℕ) (m : ReliableMessage) (c : Channel)
      → IsGenuine sent (seq, m)
      → Delivered sent past c
      → Delivered sent past (accept seq m c)
  accept-Delivered seq m c g v =
      accept_cases (Delivered sent past) seq m c (λ _. v)
        (λ e.
          flush-Delivered _ (arrive m c) (
            hand_out-Delivered c m c.buffered (subst (λ k. IsGenuine sent (k, m)) e g) v.genuine v))
        (λ _. record {
          in_order = v.in_order;
          started = v.started;
          bounded = v.bounded;
          genuine = All-emplace (IsGenuine sent) seq m c.buffered g v.genuine;
        })
