-- ===== src/Ecs/Ownership/Tests.antt =====
-- An owner with two ships.
use deepspace_outpost_dx.Base.{lookup, insert, erase, ◌≡◌, refl, []}
use deepspace_outpost_dx.Ecs.Ownership.{Index, holds, swap_out, add, remove, owned}
use deepspace_outpost_dx.Ecs.Ownership.Laws.{IsTidy}
use deepspace_outpost_dx.Ecs.Registry.{EntityId, same_id}

abbrev scout : EntityId
scout = record { index = 3; generation = 1 }

nobody_owns : IsTidy []
unfolding owned lookup
nobody_owns = record { once = λ k. tt; nobody = refl }

abbrev scout_owned : Index
scout_owned = add 7 scout []

scout_gone : remove 7 scout scout_owned ≡ []
unfolding remove add swap_out holds lookup insert erase same_id
scout_gone = refl
