-- ===== src/Channel/Progress.antt =====
-- The receiving half of a channel when all messages have come in.
use deepspace_outpost_dx.Base.{
  ltb, leb, ne→==, Bool-cases, eq_cases, length, All, take, take-length, get_elem?-lt, lookup,
  lookup-erase, lookup-All, All-erase, ℕ, ◌+◌, ◌-◌, ◌^◌, ◌≤◌, ◌<◌, ◌≡◌, refl, sym, ap, subst, ◌∙◌,
  ◌≢◌, ◌⊎◌, inl, inr, some, List, [], ◌∷◌, arith,
}
use deepspace_outpost_dx.Channel.{ReliableMessage, Entry, Channel, initial, emplace, flush, accept}
use deepspace_outpost_dx.Channel.Flush.{
  Settled, hand_out, flush_inv, flush-Settled, arrive, accept_cases,
}
use deepspace_outpost_dx.Channel.Delivery.{
  IsGenuine, Delivered, hand_out-Delivered, accept-Delivered,
}

-- The message of this number was handed out, or waits in the buffer.
abbrev pub Holds : ℕ → Channel → Type 0
Holds k c = (k < c.next_expected) ⊎ ((m : ReliableMessage) × (lookup k c.buffered ≡ some m))

pub lookup-emplace_self :
    (k : ℕ) (m : ReliableMessage) (d : List Entry)
    → (n : ReliableMessage) × (lookup k (emplace k m d) ≡ some n)
unfolding emplace lookup
lookup-emplace_self k m [] = (m, ground arith)
lookup-emplace_self k m ((j, n) ∷ d) = elim (eq_cases k j) [
  | inl e ↦ (n, ground arith)
  | inr e ↦ elim (Bool-cases (ltb k j)) [
    | inl before ↦ (m, ground arith)
    | inr after ↦ let (x, h) = lookup-emplace_self k m d in (x, ground arith)
  ]
]

pub lookup-emplace_ne :
    (k j : ℕ) (m : ReliableMessage) (d : List Entry) → k ≢ j → lookup j (emplace k m d) ≡ lookup j d
unfolding emplace lookup
lookup-emplace_ne k j m [] h = ground arith
lookup-emplace_ne k j m ((i, n) ∷ d) h = ground (arith, lookup-emplace_ne k j m d)

module _ (sent : List ReliableMessage) (fits : length sent + 1 < 2 ^ 32) where
  -- One message handed out leaves what arrived accounted for.
  hand_out-Holds :
      (k : ℕ) (c : Channel) (m : ReliableMessage)
      → c.next_expected ≤ length sent
      → Holds k c
      → Holds k (hand_out m c)
  hand_out-Holds k c m inside (inl h) = inl (omega arith)
  hand_out-Holds k c m inside (inr (n, h)) = elim (eq_cases c.next_expected k) [
    | inl e ↦ inl (omega arith)
    | inr e ↦ inr (n, lookup-erase c.next_expected k c.buffered ∙ rw (ne→== _ _ e) h)
  ]

  genuine_inside : (k : ℕ) (m : ReliableMessage) → IsGenuine sent (k, m) → k ≤ length sent
  genuine_inside k m g = omega (arith, get_elem?-lt sent (k - 1) m g.1)

  flush-Holds :
      (k fuel : ℕ) (c : Channel)
      → Delivered sent [] c
      → Holds k c
      → Delivered sent [] (flush fuel c) × Holds k (flush fuel c)
  flush-Holds k fuel c v h =
      flush_inv (λ c. Delivered sent [] c × Holds k c)
        (λ c m e p.
          let g = lookup-All (IsGenuine sent) _ c.buffered m p.0.genuine e in
          (
            hand_out-Delivered sent [] fits c m _ g
                (All-erase (IsGenuine sent) c.next_expected c.buffered p.0.genuine) p.0,
            hand_out-Holds k c m (genuine_inside c.next_expected m g) p.1,
          ))
        fuel c (v, h)

  arrive-Holds :
      (k : ℕ) (c : Channel) (m : ReliableMessage)
      → c.next_expected ≤ length sent
      → Holds k c
      → Holds k (arrive m c)
  arrive-Holds k c m inside (inl h) = inl (omega arith)
  arrive-Holds k c m inside (inr h) = inr h

  -- The expected message, and the loop behind it.
  expected-Holds :
      (k seq : ℕ) (m : ReliableMessage) (c : Channel)
      → IsGenuine sent (seq, m)
      → Delivered sent [] c
      → seq ≡ c.next_expected
      → Holds k (arrive m c)
      → Holds k (flush (length c.buffered) (arrive m c))
  expected-Holds k seq m c g v e h =
      (flush-Holds k (length c.buffered) (arrive m c)
        (hand_out-Delivered sent [] fits c m c.buffered (subst (λ j. IsGenuine sent (j, m)) e g)
          v.genuine v)
        h).1

  emplace-Holds :
      (k seq : ℕ) (m : ReliableMessage) (c : Channel)
      → Holds k c
      → Holds k (record c { buffered = emplace seq m c.buffered })
  emplace-Holds k seq m c (inl h) = inl h
  emplace-Holds k seq m c (inr (n, h)) = elim (eq_cases seq k) [
    | inl e ↦ inr (
        subst (λ j. (x : ReliableMessage) × (lookup j (emplace seq m c.buffered) ≡ some x)) e
          (lookup-emplace_self seq m c.buffered))
    | inr e ↦ inr (n, lookup-emplace_ne seq k m c.buffered e ∙ h)
  ]

  accept-Holds :
      (k seq : ℕ) (m : ReliableMessage) (c : Channel)
      → IsGenuine sent (seq, m)
      → Delivered sent [] c
      → Holds k c
      → Holds k (accept seq m c)
  accept-Holds k seq m c g v h =
      let inside : seq ≤ length sent = genuine_inside seq m g in
      accept_cases (Holds k) seq m c (λ _. h)
        (λ e. expected-Holds k seq m c g v e (arrive-Holds k c m (omega arith) h))
        (λ _. emplace-Holds k seq m c h)

  accept-Holds_self :
      (seq : ℕ) (m : ReliableMessage) (c : Channel)
      → IsGenuine sent (seq, m)
      → Delivered sent [] c
      → Holds seq (accept seq m c)
  accept-Holds_self seq m c g v =
      let inside : seq ≤ length sent = genuine_inside seq m g in
      accept_cases (Holds seq) seq m c (λ h. inl h)
        (λ e. expected-Holds seq seq m c g v e (inl (omega arith)))
        (λ _. inr (lookup-emplace_self seq m c.buffered))

  accept-Settled :
      (seq : ℕ) (m : ReliableMessage) (c : Channel) → Settled c → Settled (accept seq m c)
  accept-Settled seq m c h =
      accept_cases Settled seq m c (λ _. h)
        (λ e. flush-Settled (length c.buffered) (arrive m c) (omega arith))
        (λ e. lookup-emplace_ne seq c.next_expected m c.buffered (omega arith) ∙ h)

-- The messages that come in, in the order of their coming.
unfoldable pub accept_all : List Entry → Channel → Channel
accept_all [] c = c
accept_all ((seq, m) ∷ d) c = accept_all d (accept seq m c)

abbrev pub Arrives : ℕ → List Entry → Type 0
Arrives k [] = ⊥
Arrives k ((seq, m) ∷ d) = (k ≡ seq) ⊎ Arrives k d

abbrev pub Covers : ℕ → List Entry → Type 0
Covers n d = (k : ℕ) → 0 < k → k ≤ n → Arrives k d

module _ (sent : List ReliableMessage) (fits : length sent + 1 < 2 ^ 32) where
  accept_all_keeps :
      (d : List Entry) (c : Channel)
      → All (IsGenuine sent) d
      → Delivered sent [] c
      → Settled c
      → Delivered sent [] (accept_all d c) × Settled (accept_all d c)
  unfolding accept_all
  accept_all_keeps [] c g v s = (v, s)
  accept_all_keeps ((seq, m) ∷ d) c g v s =
      accept_all_keeps d (accept seq m c) g.1 (accept-Delivered sent [] fits seq m c g.0 v)
        (accept-Settled sent fits seq m c s)

  accept_all-Holds :
      (k : ℕ) (d : List Entry) (c : Channel)
      → All (IsGenuine sent) d
      → Delivered sent [] c
      → Holds k c ⊎ Arrives k d
      → Holds k (accept_all d c)
  unfolding accept_all
  accept_all-Holds k [] c g v (inl h) = h
  accept_all-Holds k [] c g v (inr h) = absurd h
  accept_all-Holds k ((seq, m) ∷ d) c g v h =
      accept_all-Holds k d (accept seq m c) g.1 (accept-Delivered sent [] fits seq m c g.0 v)
        (next h)
    where
      next : Holds k c ⊎ ((k ≡ seq) ⊎ Arrives k d) → Holds k (accept seq m c) ⊎ Arrives k d
      next (inl held) = inl (accept-Holds sent fits k seq m c g.0 v held)
      next (inr (inl e)) = inl (
          subst (λ j. Holds j (accept seq m c)) (sym e) (accept-Holds_self sent fits seq m c g.0 v))
      next (inr (inr a)) = inr a

  initial-Delivered : Delivered sent [] initial
  initial-Delivered = record {
    in_order = refl;
    started = omega arith;
    bounded = omega arith;
    genuine = tt;
  }

  Settled-Holds : (c : Channel) → Settled c → Holds c.next_expected c → ⊥
  Settled-Holds c s (inl h) = omega arith
  Settled-Holds c s (inr (m, e)) = cc

  no_gap :
      (c : Channel)
      → Delivered sent [] c
      → Settled c
      → (c.next_expected ≤ length sent → Holds c.next_expected c)
      → c.next_expected ≡ length sent + 1
  no_gap c v s holds = elim (Bool-cases (leb c.next_expected (length sent))) [
    | inl inside ↦ absurd (Settled-Holds c s (holds (ground arith)))
    | inr past ↦ ground arith
  ]

  -- If fewer than 2 ^ 32 - 1 messages were sent, only genuine copies of them come in, in any
  -- order and with any repetition, and each of them comes in at least once, then exactly the sent
  -- messages are ready in the end, once each and in order.
  pub accept_all_complete :
      (d : List Entry)
      → All (IsGenuine sent) d
      → Covers (length sent) d
      → (accept_all d initial).ready ≡ sent
  unfolding lookup
  accept_all_complete d g covers =
      let c : Channel = accept_all d initial in
      let (v, s) = accept_all_keeps d initial g initial-Delivered refl in
      let all : c.next_expected ≡ length sent + 1 = no_gap c v s (λ h.
        accept_all-Holds c.next_expected d initial g initial-Delivered
          (inr (covers c.next_expected v.started h))) in
      v.in_order ∙ ap (λ (n : ℕ). take n sent) (omega arith) ∙ take-length sent
