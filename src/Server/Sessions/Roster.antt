-- ===== src/Server/Sessions/Roster.antt =====
-- The rest of GameLogic/ServerSessions.h: scores, the roster, grants of ownership, broadcasts and
-- parking.
use deepspace_outpost_dx.Base.{
  ltb, ◌==◌, if◌then◌else◌, ℕ, Bool, true, false, not, ◌||◌, Option, none, some, List, [], ◌∷◌,
}
use deepspace_outpost_dx.Base.Int.{ℤ, pos, ◌+ℤ◌}
use deepspace_outpost_dx.Messages.{Value}
use deepspace_outpost_dx.Messages.Defs.{Message}
use deepspace_outpost_dx.Messages.Defs.Player.{player_info}
use deepspace_outpost_dx.Ecs.Registry.{EntityId, Registry, is_valid, add, try_get}
use deepspace_outpost_dx.Ecs.Registry
use deepspace_outpost_dx.Ecs.Ownership
use deepspace_outpost_dx.Server.Limit.{since}
use deepspace_outpost_dx.Server.Sessions.{Session, is_live, Sessions}
use deepspace_outpost_dx.Server.Sessions.Hello.{tell, Ship}

-- The first session whose entity has the index gets the score.
unfoldable pub score_first : ℕ → ℤ → List (ℕ × Session) → Bool × List (ℕ × Session)
score_first index delta [] = (false, [])
score_first index delta ((k, s) ∷ es) =
    let (found, left) = score_first index delta es in
    if s.entity.index == index
    then (true, (k, record s { score = s.score +ℤ delta }) ∷ es)
    else (found, (k, s) ∷ left)

unfoldable pub add_score : ℕ → ℤ → Sessions → Bool × Sessions
add_score index delta st =
    let (found, left) = score_first index delta st.table.sessions in
    (found, record st { table = record st.table { sessions = left } })

unfoldable pub rtt_for_entity : ℕ → List (ℕ × Session) → ℕ
rtt_for_entity index [] = 0
rtt_for_entity index ((k, s) ∷ es) =
    let rest = rtt_for_entity index es in if s.entity.index == index then s.rtt_ms else rest

unfoldable pub tell_each : (m : Message) → Value m.fields → List (ℕ × Session) → List (ℕ × Session)
tell_each m v [] = []
tell_each m v ((k, s) ∷ es) = (k, tell m v s) ∷ tell_each m v es

unfoldable pub broadcast : (m : Message) → Value m.fields → Sessions → Sessions
broadcast m v st = record st {
  table = record st.table { sessions = tell_each m v st.table.sessions };
}

abbrev pub PlayerInfo : Type 0
PlayerInfo = Value player_info.fields

-- `wanted` reads the level of a `Wanted` component, of the type `wanted_type`.
module _ {A : Type 0} (wanted_type : ℕ) (wanted : A → ℤ) where
  abbrev level_or_zero : Option A → ℤ
  level_or_zero none = pos 0
  level_or_zero (some w) = wanted w

  unfoldable pub build_player_info : Registry A → Session → Option PlayerInfo
  build_player_info world s =
      let level = level_or_zero (try_get wanted_type s.entity world) in
      if is_valid s.entity world
      then some (s.player_id, (s.entity.index, (s.name, (level, tt))))
      else none

  abbrev keep_some : Option PlayerInfo → List PlayerInfo → List PlayerInfo
  keep_some none infos = infos
  keep_some (some i) infos = i ∷ infos

  unfoldable pub roster : Registry A → List (ℕ × Session) → List PlayerInfo
  roster world [] = []
  roster world ((k, s) ∷ es) = keep_some (build_player_info world s) (roster world es)

  unfoldable pub player_info_for : Registry A → ℕ → List (ℕ × Session) → Option PlayerInfo
  player_info_for world index [] = none
  player_info_for world index ((k, s) ∷ es) =
      let rest = player_info_for world index es in
      if s.entity.index == index then build_player_info world s else rest

unfoldable pub grant_ownership :
    {A : Type 0} → Ship A → ℕ → EntityId → Sessions → Registry A → Sessions × Registry A
grant_ownership ship player_id e st world =
    if player_id == 0 || not (is_valid e world) then (st, world) else (
      record st { ownership = Ownership.add player_id e st.ownership },
      Registry.add ship.owner_type e (ship.owner player_id) world,
    )

-- The neutral intent replaces the one that the ship has, if it has one.
abbrev neutral_if : {A : Type 0} → Option A → ℕ → A → EntityId → Registry A → Registry A
neutral_if none t v e world = world
neutral_if (some i) t v e world = Registry.add t e v world

unfoldable pub safe_park_silent :
    {A : Type 0} → ℕ → A → ℕ → ℕ → List (ℕ × Session) → Registry A → Registry A
safe_park_silent intent_type neutral tick park_after [] world = world
safe_park_silent intent_type neutral tick park_after ((k, s) ∷ es) world =
    let parked =
      neutral_if (try_get intent_type s.entity world) intent_type neutral s.entity world in
    let still = not (is_live s) || ltb (since tick s.last_seen_tick) park_after in
    safe_park_silent intent_type neutral tick park_after es (if still then world else parked)
