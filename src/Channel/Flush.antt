-- ===== src/Channel/Flush.antt =====
-- The loop of ReadPacket that hands out buffered messages.
use deepspace_outpost_dx.Base.{
  ltb, ◌==◌, Bool-cases, Option-cases, length, lookup, erase, length-erase-lt, ℕ, zero, suc, ◌+◌,
  ◌%◌, ◌^◌, ◌≤◌, ◌<◌, ◌≡◌, refl, inl, inr, none, some, [], ◌∷◌, ◌++◌, arith,
}
use deepspace_outpost_dx.Channel.{ReliableMessage, Channel, emplace, flush, accept}

abbrev pub Settled : Channel → Type 0
Settled c = lookup c.next_expected c.buffered ≡ none

-- One round of the loop.
abbrev pub hand_out : ReliableMessage → Channel → Channel
hand_out m c = record c {
  ready = c.ready ++ m ∷ [];
  buffered = erase c.next_expected c.buffered;
  next_expected = (c.next_expected + 1) % 2 ^ 32;
}

pub flush_stop :
    (fuel : ℕ) (c : Channel) → lookup c.next_expected c.buffered ≡ none → flush fuel c ≡ c
unfolding flush
flush_stop zero c e = refl
flush_stop (suc fuel) c e = rw (e, flush)

pub flush_next :
    (fuel : ℕ) (c : Channel) (m : ReliableMessage)
    → lookup c.next_expected c.buffered ≡ some m
    → flush (suc fuel) c ≡ flush fuel (hand_out m c)
unfolding flush
flush_next fuel c m e = rw (e, flush)

-- A property of channels that each round keeps holds after the loop.
pub flush_inv {ℓ} :
    (P : Channel → Type ℓ)
    → ((c : Channel) (m : ReliableMessage)
        → lookup c.next_expected c.buffered ≡ some m
        → P c
        → P (hand_out m c))
    → (fuel : ℕ) (c : Channel) → P c
    → P (flush fuel c)
flush_inv P keep zero c p = unfold flush in p
flush_inv P keep (suc fuel) c p = elim (Option-cases (lookup c.next_expected c.buffered)) [
  | inl e ↦ rw (flush_stop (suc fuel) c e) p
  | inr (m, e) ↦ rw (flush_next fuel c m e) (flush_inv P keep fuel (hand_out m c) (keep c m e p))
]

-- With at least as many rounds as there are buffered messages, the loop that flushes them ends with
-- the expected message not among the buffered ones.
pub flush-Settled : (fuel : ℕ) (c : Channel) → length c.buffered ≤ fuel → Settled (flush fuel c)
flush-Settled zero c h = elim (Option-cases (lookup c.next_expected c.buffered)) [
  | inl e ↦ rw (flush_stop zero c e) e
  | inr (m, e) ↦ absurd (omega (arith, length-erase-lt c.next_expected c.buffered m e))
]
flush-Settled (suc fuel) c h = elim (Option-cases (lookup c.next_expected c.buffered)) [
  | inl e ↦ rw (flush_stop (suc fuel) c e) e
  | inr (m, e) ↦ rw (flush_next fuel c m e) (
      flush-Settled fuel (hand_out m c)
        (omega (arith, length-erase-lt c.next_expected c.buffered m e)))
]

-- What the expected message does before the loop.
abbrev pub arrive : ReliableMessage → Channel → Channel
arrive m c = record c { ready = c.ready ++ m ∷ []; next_expected = (c.next_expected + 1) % 2 ^ 32 }

-- The three branches for an incoming message: a duplicate, the expected one, and one after a gap.
pub accept_cases {ℓ} :
    (P : Channel → Type ℓ) (seq : ℕ) (m : ReliableMessage) (c : Channel)
    → (seq < c.next_expected → P c)
    → (seq ≡ c.next_expected → P (flush (length c.buffered) (arrive m c)))
    → (c.next_expected < seq → P (record c { buffered = emplace seq m c.buffered }))
    → P (accept seq m c)
unfolding accept
accept_cases P seq m c old now later = elim (Bool-cases (ltb seq c.next_expected)) [
  | inl before ↦ rw (before, accept) (old (ground arith))
  | inr after ↦ elim (Bool-cases (seq == c.next_expected)) [
    | inl same ↦ rw (after, same, accept) (now (ground arith))
    | inr other ↦ rw (after, other, accept) (later (ground arith))
  ]
]
