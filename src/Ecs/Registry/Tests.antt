-- ===== src/Ecs/Registry/Tests.antt =====
-- A registry through the life of one slot.
use deepspace_outpost_dx.Base.{
  ◌==◌, if◌then◌else◌, ℕ, zero, suc, ◌≡◌, refl, true, false, not, ◌&&◌, none, some, List, [], ◌∷◌,
  arith,
}
use deepspace_outpost_dx.Ecs.Registry.{
  EntityId, same_id, Registry, create, is_valid, destroy, add, try_get,
}
use deepspace_outpost_dx.Ecs.Registry.Handles.{IsSound, is_valid-destroy}
use deepspace_outpost_dx.Ecs.Registry.Stale.{Op, creates, destroys, adds, run, destroyed_stays_bad}
use deepspace_outpost_dx.Ecs.Registry.Components.{try_get-add}
use deepspace_outpost_dx.Ecs.Registry.Lifetime.{IsClean, add_stale}

-- Slot 0 is alive in its second generation, slot 1 is free.
abbrev world : Registry ℕ
world = record {
  generations = 1 ∷ 4 ∷ [];
  alive = true ∷ false ∷ [];
  free = 1 ∷ [];
  pools = none ∷ [];
}

abbrev ship : EntityId
ship = record { index = 0; generation = 1 }

world-IsSound : IsSound world
world-IsSound = record {
  paired = refl;
  small = omega arith;
  free_slots = (omega arith, refl, tt, tt);
}

ship-is_valid : is_valid ship world ≡ true
unfolding is_valid
ship-is_valid = refl

is_valid-destroy_example :
    is_valid ship (destroy ship world) ≡ (is_valid ship world && not (same_id ship ship))
is_valid-destroy_example = is_valid-destroy ship ship world world-IsSound

abbrev later : List (Op ℕ)
later = creates ∷ adds 0 ship 7 ∷ creates ∷ destroys (record { index = 0; generation = 2 }) ∷ []

destroyed_stays_bad_example : is_valid ship (run later (destroy ship world)) ≡ false
destroyed_stays_bad_example = destroyed_stays_bad ship later world ship-is_valid (omega arith)

try_get-add_example :
    try_get 0 ship (add 0 ship 7 world)
    ≡ (if 0 == 0 && same_id ship ship then some 7 else try_get 0 ship world)
try_get-add_example = try_get-add 0 0 ship ship 7 world ship-is_valid ship-is_valid tt

world-IsClean : IsClean world
world-IsClean zero i dead = refl
world-IsClean (suc t) i dead = refl

abbrev stale : EntityId
stale = record { index = 1; generation = 3 }

add_stale_example :
    try_get 0 (create (add 0 stale 7 world)).0 (create (add 0 stale 7 world)).1 ≡ some 7
add_stale_example = add_stale 0 stale 7 [] world world-IsSound tt refl

stale_is_bad : is_valid stale world ≡ false
unfolding is_valid
stale_is_bad = refl
