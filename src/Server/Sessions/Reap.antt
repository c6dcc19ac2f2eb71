-- ===== src/Server/Sessions/Reap.antt =====
-- `Reap` of GameLogic/ServerSessions.h, and what it asks for on the way.
use deepspace_outpost_dx.Base.{ltb, ◌==◌, if◌then◌else◌, ℕ, Bool, ◌||◌, List, [], ◌∷◌, ◌++◌}
use deepspace_outpost_dx.Ecs.Registry.{EntityId, Registry, is_valid, destroy}
use deepspace_outpost_dx.Ecs.Ownership
use deepspace_outpost_dx.Server.Table.{drop_session}
use deepspace_outpost_dx.Server.Limit.{since, drop_stale}
use deepspace_outpost_dx.Server.Sessions.{Session, is_live, Sessions}

-- The indices of what is destroyed, and the world after it.
unfoldable pub destroy_one : {A : Type 0} → EntityId → List ℕ × Registry A → List ℕ × Registry A
destroy_one e (gone, world) =
    if is_valid e world then (gone ++ e.index ∷ [], destroy e world) else (gone, world)

unfoldable pub destroy_each :
    {A : Type 0} → List EntityId → List ℕ × Registry A → List ℕ × Registry A
destroy_each [] r = r
destroy_each (e ∷ es) r = destroy_each es (destroy_one e r)

unfoldable pub is_idle : ℕ → ℕ → ℕ → Session → Bool
is_idle tick shell_ticks grace_ticks s =
    ltb (if is_live s || s.loading then grace_ticks else shell_ticks) (since tick s.last_seen_tick)

-- All that goes with one idle session.
unfoldable pub expire :
    {A : Type 0} → ℕ → Session → List ℕ × Registry A × Sessions → List ℕ × Registry A × Sessions
expire k s (gone, world, st) =
    let owned = if s.player_id == 0 then [] else Ownership.owned s.player_id st.ownership in
    let left =
      if s.player_id == 0 then st.ownership else Ownership.forget s.player_id st.ownership in
    let (gone', world') = destroy_one s.entity (destroy_each owned (gone, world)) in
    (gone', world', record st { table = drop_session k s.token st.table; ownership = left })

-- The loop over the sessions, as they were before it.
unfoldable pub reap_each :
    {A : Type 0}
    → ℕ
    → ℕ
    → ℕ
    → List (ℕ × Session)
    → List ℕ × Registry A × Sessions
    → List ℕ × Registry A × Sessions
reap_each tick shell grace [] r = r
reap_each tick shell grace ((k, s) ∷ es) r =
    reap_each tick shell grace es (if is_idle tick shell grace s then expire k s r else r)

unfoldable pub reap :
    {A : Type 0} → ℕ → ℕ → ℕ → Registry A → Sessions → List ℕ × Registry A × Sessions
reap tick shell grace world st =
    let (gone, world', st') = reap_each tick shell grace st.table.sessions ([], world, st) in
    (gone, world', record st' { rate = drop_stale tick shell st'.rate })
