-- ===== src/Bus/Delivery.antt =====
-- What a dispatch of the bus delivers, to whom and in which order.
-- The calls of a generation are described by the messages and handlers that it begins with.
use deepspace_outpost_dx.Base.{
  if◌then◌else◌, Bool-cases, length, get_elem?, drop, lookup, ℕ, zero, suc, ◌+◌, ◌%◌, ◌^◌, ◌≤◌, ◌<◌,
  ◌≡◌, refl, sym, ap, subst, ◌∙◌, ◌≢◌, ◌⊎◌, inl, inr, some, List, [], ◌∷◌, arith,
}
use deepspace_outpost_dx.Bus.{
  max_generations, Handler, Queued, Bus, handlers_or_nil, prune_inactive, invoke_from, run_batch,
  generation, drop_all, drain, dispatch,
}

-- The handlers that a message is for, in the order of their subscriptions.
abbrev pub active_tokens : List Handler → List ℕ
active_tokens [] = []
active_tokens (h ∷ hs) = if h.active then h.token ∷ active_tokens hs else active_tokens hs

abbrev pub counted : {A : Type 0} → Bus A → Bus A
counted b = record b { stats = record b.stats { dispatched = (b.stats.dispatched + 1) % 2 ^ 64 } }

-- The end of a generation: it is counted, and inactive handlers are removed if there may be some.
abbrev pub closed : {A : Type 0} → Bus A → Bus A
closed b =
    let c = record b {
      stats = record b.stats { generations = (b.stats.generations + 1) % 2 ^ 64 };
    } in
    if c.dirty then prune_inactive c else c

module _ {A : Type 0} (invoke : ℕ → A → Bus A → Bus A) where
  abbrev pub deliver : A → List ℕ → Bus A → Bus A
  deliver payload [] b = b
  deliver payload (t ∷ ts) b = deliver payload ts (invoke t payload b)

  abbrev pub deliver_all : List (ℕ × List Handler) → List (Queued A) → Bus A → Bus A
  deliver_all handlers [] b = b
  deliver_all handlers (q ∷ qs) b =
      deliver_all handlers qs
        (counted (deliver q.payload (active_tokens (handlers_or_nil (lookup q.id handlers))) b))

  -- A dispatch with so many generations left, from a bus to a bus.
  pub data Delivers : ℕ → Bus A → Bus A → Type 0 where
    all_quiet : {n : ℕ} (b : Bus A) → b.queue ≡ [] → Delivers n b b
    one_round :
        {n : ℕ} (b c : Bus A)
        → b.queue ≢ []
        → Delivers n (closed (deliver_all b.handlers b.queue (record b { queue = [] }))) c
        → Delivers (suc n) b c
    cut_off :
        (b c : Bus A)
        → b.queue ≢ []
        → c.queue ≡ []
        → c.stats.dropped ≡ (b.stats.dropped + length b.queue) % 2 ^ 64
        → c.handlers ≡ b.handlers
        → c.stats.dispatched ≡ b.stats.dispatched
        → Delivers 0 b c

queue_cases : {B : Type 0} (qs : List B) → (qs ≡ []) ⊎ ((q : B) × (rest : List B) × (qs ≡ q ∷ rest))
queue_cases [] = inl refl
queue_cases (q ∷ qs) = inr (q, qs, refl)

handler_at :
    (i : ℕ) (hs : List Handler)
    → i < length hs
    → (h : Handler) × (get_elem? hs i ≡ some h) × (drop i hs ≡ h ∷ drop (suc i) hs)
handler_at i [] l = absurd (omega (arith, l))
handler_at zero (h ∷ hs) l = (h, refl, refl)
handler_at (suc i) (h ∷ hs) l = handler_at i hs (omega (arith, l))

drop_all_of : (i : ℕ) (hs : List Handler) → length hs ≤ i → drop i hs ≡ []
drop_all_of zero [] l = refl
drop_all_of (suc i) [] l = refl
drop_all_of zero (h ∷ hs) l = absurd (omega (arith, l))
drop_all_of (suc i) (h ∷ hs) l = drop_all_of i hs (omega (arith, l))

module _ {A : Type 0} (invoke : ℕ → A → Bus A → Bus A)
    (steady : (t : ℕ) (payload : A) (b : Bus A) → (invoke t payload b).handlers ≡ b.handlers) where
  -- One turn of the loop over the handlers.
  invoke_one : Handler → A → Bus A → Bus A
  invoke_one h payload b = if h.active then invoke h.token payload b else b

  invoke_from-deliver :
      (n i id : ℕ) (payload : A) (hs : List Handler) (b : Bus A)
      → handlers_or_nil (lookup id b.handlers) ≡ hs
      → i + n ≡ length hs
      → invoke_from invoke n i id payload b ≡ deliver invoke payload (active_tokens (drop i hs)) b
  unfolding invoke_from
  invoke_from-deliver zero i id payload hs b e l = rw (drop_all_of i hs (omega (arith, l))) refl
  invoke_from-deliver (suc n) i id payload hs b e l =
      let (h, at, tail) = handler_at i hs (omega (arith, l)) in
      let step : i + 1 ≡ suc i = omega arith in
      elim (Bool-cases h.active) [
        | inl awake ↦
            rw (e, at, tail, awake)
              (subst
                (λ (j : ℕ).
                  invoke_from invoke n (i + 1) id payload (invoke h.token payload b)
                  ≡ deliver invoke payload (active_tokens (drop j hs)) (invoke h.token payload b))
                step
                (invoke_from-deliver n (i + 1) id payload hs (invoke h.token payload b)
                  (ap (λ d. handlers_or_nil (lookup id d)) (steady h.token payload b) ∙ e)
                  (omega (arith, l))))
        | inr asleep ↦
            rw (e, at, tail, asleep)
              (subst
                (λ (j : ℕ).
                  invoke_from invoke n (i + 1) id payload b
                  ≡ deliver invoke payload (active_tokens (drop j hs)) b)
                step (invoke_from-deliver n (i + 1) id payload hs b e (omega (arith, l))))
      ]

  handlers-deliver :
      (payload : A) (ts : List ℕ) (b : Bus A) → (deliver invoke payload ts b).handlers ≡ b.handlers
  handlers-deliver payload [] b = refl
  handlers-deliver payload (t ∷ ts) b =
      handlers-deliver payload ts (invoke t payload b) ∙ steady t payload b

  run_batch-deliver_all :
      (handlers : List (ℕ × List Handler)) (qs : List (Queued A)) (b : Bus A)
      → b.handlers ≡ handlers
      → run_batch invoke qs b ≡ deliver_all invoke handlers qs b
  unfolding run_batch
  run_batch-deliver_all handlers [] b e = refl
  run_batch-deliver_all handlers (q ∷ qs) b e =
      let hs = handlers_or_nil (lookup q.id handlers) in
      let here : handlers_or_nil (lookup q.id b.handlers) ≡ hs =
        ap (λ d. handlers_or_nil (lookup q.id d)) e in
      let called : invoke_from invoke (length hs) 0 q.id q.payload b
          ≡ deliver invoke q.payload (active_tokens hs) b =
        invoke_from-deliver (length hs) 0 q.id q.payload hs b here (omega arith) in
      rw (here, called)
        (run_batch-deliver_all handlers qs (counted (deliver invoke q.payload (active_tokens hs) b))
          (handlers-deliver q.payload (active_tokens hs) b ∙ e))

  generation-deliver_all :
      (b : Bus A)
      → generation invoke b
        ≡ closed (deliver_all invoke b.handlers b.queue (record b { queue = [] }))
  unfolding generation
  generation-deliver_all b =
      ap closed (run_batch-deliver_all b.handlers b.queue (record b { queue = [] }) refl)

  -- The loop asks whether the queue is empty.
  if_quiet : Bus A → Bus A → List (Queued A) → Bus A
  if_quiet b c [] = b
  if_quiet b c (q ∷ qs) = c

  drain_last : (b : Bus A) → drain invoke 0 b ≡ if_quiet b (drop_all invoke b) b.queue
  unfolding drain if_quiet
  drain_last b = go b.queue refl
    where
      go :
          (qs : List (Queued A))
          → b.queue ≡ qs
          → drain invoke 0 b ≡ if_quiet b (drop_all invoke b) b.queue
      go [] e = ground (arith, e)
      go (q ∷ qs) e = ground (arith, e)

  drain_next :
      (n : ℕ) (b : Bus A)
      → drain invoke (suc n) b ≡ if_quiet b (drain invoke n (generation invoke b)) b.queue
  unfolding drain if_quiet
  drain_next n b = go b.queue refl (drain invoke n (generation invoke b)) refl
    where
      go :
          (qs : List (Queued A))
          → b.queue ≡ qs
          → (c : Bus A) → drain invoke n (generation invoke b) ≡ c
          → drain invoke (suc n) b ≡ if_quiet b c b.queue
      go [] e c h = ground (arith, e, h)
      go (q ∷ qs) e c h = ground (arith, e, h)

  if_quiet-Delivers :
      (n : ℕ) (b c : Bus A)
      → (b.queue ≢ [] → Delivers invoke n b c)
      → Delivers invoke n b (if_quiet b c b.queue)
  if_quiet-Delivers n b c busy = elim (queue_cases b.queue) [
    | inl quiet ↦
        subst (λ (l : List (Queued A)). Delivers invoke n b (if_quiet b c l)) (sym quiet)
          (unfold if_quiet in all_quiet b quiet)
    | inr (q, qs, e) ↦
        subst (λ (l : List (Queued A)). Delivers invoke n b (if_quiet b c l)) (sym e)
          (unfold if_quiet in busy (λ h. ground (arith, e, h)))
  ]

  drain-Delivers : (n : ℕ) (b : Bus A) → Delivers invoke n b (drain invoke n b)
  drain-Delivers zero b = subst (Delivers invoke 0 b) (sym (drain_last b)) (
      if_quiet-Delivers 0 b (drop_all invoke b)
        (λ busy. cut_off b (drop_all invoke b) busy refl refl refl refl))
  drain-Delivers (suc n) b =
      let next : Bus A = closed (deliver_all invoke b.handlers b.queue (record b { queue = [] })) in
      let rest : Delivers invoke n next (drain invoke n (generation invoke b)) =
        subst (λ (c : Bus A). Delivers invoke n next (drain invoke n c))
          (sym (generation-deliver_all b)) (drain-Delivers n next) in
      subst (Delivers invoke (suc n) b) (sym (drain_next n b)) (
        if_quiet-Delivers (suc n) b (drain invoke n (generation invoke b))
          (λ busy. one_round b (drain invoke n (generation invoke b)) busy rest))

  -- If handlers neither subscribe nor unsubscribe while they run, a dispatch goes in at most 16
  -- rounds. Each takes the messages that wait when it begins, in the order in which they were
  -- published, hands each of them to the active handlers of its id in the order of their
  -- subscriptions, once to each, counts it, and leaves for the next round what the handlers
  -- published meanwhile. The dispatch ends when nothing waits, or after 16 rounds, when what
  -- waits is dropped and counted as dropped.
  pub dispatch-Delivers : (b : Bus A) → Delivers invoke 16 b (dispatch invoke b)
  unfolding dispatch
  dispatch-Delivers b = drain-Delivers max_generations b
