-- ===== src/Server/Sessions/Budget.antt =====
-- How many inputs a session has applied in a tick, and that their order does not matter.
use deepspace_outpost_dx.Base.{
  leb, ◌==◌, if◌then◌else◌, Bool-cases, ℕ, ◌+◌, ◌≤◌, ◌<◌, ◌≡◌, refl, ap, ◌≢◌, inl, inr, true, false,
  List, [], ◌∷◌, arith,
}
use deepspace_outpost_dx.Ecs.Pool.{invalid_index}
use deepspace_outpost_dx.Ecs.Registry.{EntityId, no_entity, Registry, is_valid}
use deepspace_outpost_dx.Server.Sessions.{
  max_inputs_per_tick, Session, Sessions, at_key, write_session, InputCommand, open_tick,
  apply_input, input_at,
}
use deepspace_outpost_dx.Server.Sessions.Front.{at_key-write}

-- What is spent of the budget of a tick.
abbrev pub spent : ℕ → Session → ℕ
spent tick s = if s.input_window_tick == tick then s.inputs_this_window else 0

-- How many of these inputs on one session at one tick are applied: the code returns the entity then.
abbrev pub applied : {A : Type 0} → Registry A → ℕ → ℕ → List InputCommand → Sessions → ℕ
applied world k tick [] st = 0
applied world k tick (i ∷ is) st =
    let (e, st') = input_at world k i tick st in
    (if e.index == invalid_index then 0 else 1) + applied world k tick is st'

pub spent-open_tick :
    (tick : ℕ) (s : Session)
    → ((open_tick tick s).inputs_this_window ≡ spent tick s)
      × (spent tick (open_tick tick s) ≡ spent tick s)
unfolding open_tick
spent-open_tick tick s = (ground arith, ground arith)

spent-apply_input :
    (input : InputCommand) (tick : ℕ) (s : Session)
    → spent tick s < max_inputs_per_tick
    → spent tick (apply_input input (open_tick tick s)) ≡ spent tick s + 1
unfolding apply_input open_tick
spent-apply_input input tick s h = ground arith

module _ {A : Type 0} (world : Registry A) (k tick : ℕ) where
  applied_next :
      (i : InputCommand) (is : List InputCommand) (st : Sessions) (e : EntityId) (st' : Sessions)
      → input_at world k i tick st ≡ (e, st')
      → applied world k tick (i ∷ is) st ≤ 1 + applied world k tick is st'
  applied_next i is st e st' h = rw h (ground arith)

  applied_none :
      (i : InputCommand) (is : List InputCommand) (st st' : Sessions)
      → input_at world k i tick st ≡ (no_entity, st')
      → applied world k tick (i ∷ is) st ≡ applied world k tick is st'
  applied_none i is st st' h = rw h (omega arith)

  input_gone :
      (i : InputCommand) (st : Sessions)
      → is_valid (at_key k st).entity world ≡ false
      → input_at world k i tick st ≡ (no_entity, st)
  unfolding input_at
  input_gone i st gone = rw gone refl

  input_full :
      (i : InputCommand) (st : Sessions)
      → is_valid (at_key k st).entity world ≡ true
      → leb max_inputs_per_tick (open_tick tick (at_key k st)).inputs_this_window ≡ true
      → input_at world k i tick st ≡ (no_entity, write_session k (open_tick tick (at_key k st)) st)
  unfolding input_at
  input_full i st here full = rw (here, full) refl

  pub input_room :
      (i : InputCommand) (st : Sessions)
      → is_valid (at_key k st).entity world ≡ true
      → leb max_inputs_per_tick (open_tick tick (at_key k st)).inputs_this_window ≡ false
      → input_at world k i tick st
        ≡ ((at_key k st).entity, write_session k (apply_input i (open_tick tick (at_key k st))) st)
  unfolding input_at
  input_room i st here room = rw (here, room) refl

  spent_after :
      (s : Session) (st : Sessions) → spent tick (at_key k (write_session k s st)) ≡ spent tick s
  spent_after s st = ap (spent tick) (at_key-write k s st)

  applied_bound :
      (is : List InputCommand) (st : Sessions)
      → spent tick (at_key k st) ≤ max_inputs_per_tick
      → spent tick (at_key k st) + applied world k tick is st ≤ max_inputs_per_tick
  applied_bound [] st h = omega arith
  applied_bound (i ∷ is) st h =
      let s = at_key k st in
      elim (Bool-cases (is_valid s.entity world)) [
        | inr gone ↦
            omega (arith, applied_none i is st st (input_gone i st gone), applied_bound is st h)
        | inl here ↦
            elim (Bool-cases (leb max_inputs_per_tick (open_tick tick s).inputs_this_window)) [
              | inl full ↦ omega (
                arith,
                applied_none i is st _ (input_full i st here full),
                (spent-open_tick tick s).1,
                spent_after (open_tick tick s) st,
                applied_bound is (write_session k (open_tick tick s) st) (
                    ground
                      (arith, h, (spent-open_tick tick s).1, spent_after (open_tick tick s) st)),
              )
              | inr room ↦
                  let left : spent tick s < max_inputs_per_tick =
                    ground (arith, room, (spent-open_tick tick s).0) in
                  omega (
                    arith,
                    applied_next i is st _ _ (input_room i st here room),
                    spent-apply_input i tick s left,
                    spent_after (apply_input i (open_tick tick s)) st,
                    applied_bound is (write_session k (apply_input i (open_tick tick s)) st) (
                        omega (
                          arith,
                          left,
                          spent-apply_input i tick s left,
                          spent_after (apply_input i (open_tick tick s)) st,
                        )),
                  )
            ]
      ]

-- Of any inputs to one session at one tick, at most eight are applied, if no more than eight are
-- counted for that tick before.
pub applied-bounded :
    {A : Type 0} (world : Registry A) (k tick : ℕ) (is : List InputCommand) (st : Sessions)
    → spent tick (at_key k st) ≤ max_inputs_per_tick
    → applied world k tick is st ≤ max_inputs_per_tick
applied-bounded world k tick is st h = omega (arith, applied_bound world k tick is st h)

-- The freshest input wins whichever comes first.
pub apply_input_swap :
    (a b : InputCommand) (s : Session)
    → a.sequence ≢ b.sequence
    → apply_input a (apply_input b s) ≡ apply_input b (apply_input a s)
unfolding apply_input
apply_input_swap a b s h = ground arith
