-- ===== src/Ecs/Registry/Stale.antt =====
-- Handles of destroyed entities, while their slots are used again.
use deepspace_outpost_dx.Base.{
  length, get_or, length-append, length-set, get_or-set, get_or-push, ℕ, suc, ◌+◌, ◌%◌, ◌^◌, ◌<◌,
  ◌≡◌, refl, true, false, List, [], ◌∷◌, arith,
}
use deepspace_outpost_dx.Ecs.Registry.{EntityId, Registry, create, is_valid, destroy, add, remove}

pub data Op (A : Type 0) : Type 0 where
  creates : Op A
  destroys : EntityId → Op A
  adds : ℕ → EntityId → A → Op A
  removes : ℕ → EntityId → Op A

module _ {A : Type 0} where
  unfoldable pub step : Op A → Registry A → Registry A
  step creates r = (create r).1
  step (destroys e) r = destroy e r
  step (adds t e v) r = add t e v r
  step (removes t e) r = remove t e r

  unfoldable pub run : List (Op A) → Registry A → Registry A
  run [] r = r
  run (o ∷ os) r = run os (step o r)

  -- The slot has moved on past the handle, and can move on `k` times without wrapping.
  record Past (e : EntityId) (k : ℕ) (r : Registry A) : Type 0 where
    pub inside : e.index < length r.generations
    pub later : e.generation < get_or r.generations e.index 0
    pub room : get_or r.generations e.index 0 + k < 2 ^ 32

  Past-bad : (e : EntityId) (k : ℕ) (r : Registry A) → Past e k r → is_valid e r ≡ false
  unfolding is_valid
  Past-bad e k r p = ground arith

  create-Past : (e : EntityId) (k : ℕ) (r : Registry A) → Past e (suc k) r → Past e k (create r).1
  create-Past e k r p = go r.free refl
    where
      go : (l : List ℕ) → r.free ≡ l → Past e k (create r).1
      go [] h =
          unfold create in
          ground
            (arith, h, get_or-push r.generations 0 e.index 0, length-append r.generations (0 ∷ []))
      go (i ∷ is) h = unfold create in ground (arith, h)

  destroy-Past :
      (e d : EntityId) (k : ℕ) (r : Registry A) → Past e (suc k) r → Past e k (destroy d r)
  unfolding destroy
  destroy-Past e d k r p = ground (
    arith,
    get_or-set r.generations d.index e.index ((get_or r.generations d.index 0 + 1) % 2 ^ 32) 0,
    length-set r.generations d.index ((get_or r.generations d.index 0 + 1) % 2 ^ 32),
  )

  add-Past :
      (e d : EntityId) (t k : ℕ) (v : A) (r : Registry A)
      → Past e (suc k) r
      → Past e k (add t d v r)
  unfolding add
  add-Past e d t k v r p = record { inside = p.inside; later = p.later; room = omega arith }

  remove-Past :
      (e d : EntityId) (t k : ℕ) (r : Registry A) → Past e (suc k) r → Past e k (remove t d r)
  unfolding remove
  remove-Past e d t k r p = ground arith

  step-Past :
      (e : EntityId) (o : Op A) (k : ℕ) (r : Registry A) → Past e (suc k) r → Past e k (step o r)
  unfolding step
  step-Past e creates k r p = create-Past e k r p
  step-Past e (destroys d) k r p = destroy-Past e d k r p
  step-Past e (adds t d v) k r p = add-Past e d t k v r p
  step-Past e (removes t d) k r p = remove-Past e d t k r p

  run-Past :
      (e : EntityId) (os : List (Op A)) (r : Registry A)
      → Past e (length os) r
      → Past e 0 (run os r)
  unfolding run
  run-Past e [] r p = p
  run-Past e (o ∷ os) r p = run-Past e os (step o r) (step-Past e o (length os) r p)

  destroyed-Past :
      (e : EntityId) (k : ℕ) (r : Registry A)
      → is_valid e r ≡ true
      → e.generation + 1 + k < 2 ^ 32
      → Past e k (destroy e r)
  unfolding is_valid destroy
  destroyed-Past e k r h room = ground (
    arith,
    get_or-set r.generations e.index e.index ((get_or r.generations e.index 0 + 1) % 2 ^ 32) 0,
    length-set r.generations e.index ((get_or r.generations e.index 0 + 1) % 2 ^ 32),
  )

  -- Once the entity of a good handle is destroyed the handle stays bad, whatever is created,
  -- destroyed, added and removed afterwards, if there are so few of these operations that a
  -- 32-bit generation cannot come round.
  pub destroyed_stays_bad :
      (e : EntityId) (os : List (Op A)) (r : Registry A)
      → is_valid e r ≡ true
      → e.generation + 1 + length os < 2 ^ 32
      → is_valid e (run os (destroy e r)) ≡ false
  destroyed_stays_bad e os r h room =
      Past-bad e 0 _ (run-Past e os (destroy e r) (destroyed-Past e (length os) r h room))
