-- ===== src/Bus/Order.antt =====
-- The messages of the bus: what Publish keeps, and how a dispatch ends.
use deepspace_outpost_dx.Base.{
  leb, if◌then◌else◌, Bool-cases, length, length-append, ℕ, zero, suc, ◌+◌, ◌%◌, ◌^◌, ◌≤◌, ◌<◌, ◌≡◌,
  refl, ap, ◌∙◌, inl, inr, List, [], ◌∷◌, ◌++◌, arith,
}
use deepspace_outpost_dx.Bus.{
  max_generations, max_queue_depth, Scope, Queued, Bus, is_control, evict, publish, generation,
  drain, dispatch,
}

module _ {A : Type 0} where
  -- The control messages of a queue, in its order.
  abbrev pub controls : List (Queued A) → List (Queued A)
  controls [] = []
  controls (q ∷ qs) = if is_control q.scope then q ∷ controls qs else controls qs

  controls-append : (xs ys : List (Queued A)) → controls (xs ++ ys) ≡ controls xs ++ controls ys
  controls-append [] ys = refl
  controls-append (x ∷ xs) ys = ground (arith, controls-append xs ys)

  controls-evict : (qs : List (Queued A)) → controls (evict qs).1 ≡ controls qs
  unfolding evict
  controls-evict [] = refl
  controls-evict (q ∷ qs) = ground (arith, controls-evict qs)

  evict_one : (qs : List (Queued A)) → (evict qs).0 ≤ 1
  unfolding evict
  evict_one [] = omega arith
  evict_one (q ∷ qs) = ground (arith, evict_one qs)

  length-evict : (qs : List (Queued A)) → length (evict qs).1 + (evict qs).0 ≡ length qs
  unfolding evict
  length-evict [] = omega arith
  length-evict (q ∷ qs) = ground (arith, length-evict qs)

  -- Publish loses no control message and keeps the order of the control messages, also when the
  -- queue is full; what it takes out of the queue is counted as dropped, and the greatest depth
  -- is kept up to date; if the count of dropped messages does not wrap.
  pub publish-controls :
      (id : ℕ) (scope : Scope) (payload : A) (b : Bus A)
      → b.stats.dropped + 1 < 2 ^ 64
      → let c = publish id scope payload b in
        (controls c.queue
          ≡ controls b.queue
            ++ controls (record { id = id; scope = scope; seq = c.seq; payload = payload } ∷ []))
        × (length c.queue + c.stats.dropped ≡ length b.queue + b.stats.dropped + 1)
        × (length c.queue ≤ c.stats.max_queue_depth_seen)
  unfolding publish
  publish-controls id scope payload b room =
      let seq = (b.seq + 1) % 2 ^ 64 in
      let q : Queued A = record { id = id; scope = scope; seq = seq; payload = payload } in
      elim (Bool-cases (leb max_queue_depth (length b.queue))) [
        | inl full ↦ rw full (
          controls-append (evict b.queue).1 (q ∷ [])
              ∙ ap (λ l. l ++ controls (q ∷ [])) (controls-evict b.queue),
          omega (
            arith,
            length-append (evict b.queue).1 (q ∷ []),
            length-evict b.queue,
            evict_one b.queue,
          ),
          ground arith,
        )
        | inr free ↦ rw free (
          controls-append b.queue (q ∷ []),
          omega (arith, length-append b.queue (q ∷ [])),
          ground arith,
        )
      ]

module _ {A : Type 0} (invoke : ℕ → A → Bus A → Bus A) where
  drain-empty : (n : ℕ) (b : Bus A) → (drain invoke n b).queue ≡ []
  unfolding drain
  drain-empty zero b = go b.queue refl
    where
      go : (qs : List (Queued A)) → b.queue ≡ qs → (drain invoke zero b).queue ≡ []
      go [] e = unfold drain in ground (arith, e)
      go (q ∷ qs) e = unfold drain in ground (arith, e)
  drain-empty (suc n) b = go b.queue refl (drain-empty n (generation invoke b))
    where
      go :
          (qs : List (Queued A))
          → b.queue ≡ qs
          → (drain invoke n (generation invoke b)).queue ≡ []
          → (drain invoke (suc n) b).queue ≡ []
      go [] e h = unfold drain in ground (arith, e)
      go (q ∷ qs) e h = unfold drain in ground (arith, e, h)

  -- Also when the handlers publish without end, a dispatch ends with an empty queue.
  pub dispatch-empty : (b : Bus A) → (dispatch invoke b).queue ≡ []
  unfolding dispatch
  dispatch-empty b = drain-empty max_generations b
