-- ===== src/Station/Place.antt =====
-- Stations and players in the world: `CanDock`, `NearestStation`, `FindStationBySystem`,
-- `RespawnAtNearestStation` and `DockAtSystemOrNearest` of GameLogic/StationServices.h.
-- Coordinates are integers whose differences are taken to fit 64 bits.
pub mod Nearest
use deepspace_outpost_dx.Base.{
  ltb, leb, ◌==◌, if◌then◌else◌, length, replicate, ℕ, ◌+◌, Bool, true, false, ◌&&◌, Option, none,
  some, List, [], ◌∷◌,
}
use deepspace_outpost_dx.Base.Int.{ℤ, pos, pos_part, neg_part, ◌-ℤ◌, ltb_ℤ, ◌==ℤ◌}
use deepspace_outpost_dx.Ecs.Registry.{EntityId, no_entity, Registry, add, try_get, each_pair}
use deepspace_outpost_dx.Ecs.Pool.{invalid_index}
use deepspace_outpost_dx.Ecs.Registry
use deepspace_outpost_dx.Station.{CargoHold, DockState, Equipment, Fuel, ServerStation, Wallet}

pub record Position : Type 0 where
  pub x : ℤ
  pub y : ℤ
  pub z : ℤ

-- The components that the services read or write; `X` holds those with floating-point fields.
pub data Component (X : Type 0) : Type 0 where
  wallet_component : Wallet → Component X
  hold_component : CargoHold → Component X
  dock_component : DockState → Component X
  equipment_component : Equipment → Component X
  fuel_component : Fuel → Component X
  station_component : ServerStation → Component X
  transform_component : Position → Component X
  wanted_component : ℤ → Component X
  other_component : X → Component X

abbrev pub wallet_id : ℕ
wallet_id = 0

abbrev pub hold_id : ℕ
hold_id = 1

abbrev pub dock_id : ℕ
dock_id = 2

abbrev pub equipment_id : ℕ
equipment_id = 3

abbrev pub fuel_id : ℕ
fuel_id = 4

abbrev pub station_id : ℕ
station_id = 5

abbrev pub transform_id : ℕ
transform_id = 6

abbrev pub wanted_id : ℕ
wanted_id = 7

abbrev pub distance : ℤ → ℤ → ℕ
distance a b = pos_part (a -ℤ b) + neg_part (a -ℤ b)

-- Chebyshev: no coordinate is farther than the range.
unfoldable pub can_dock : Position → Position → ℕ → Bool
can_dock p s range =
    leb (distance p.x s.x) range && leb (distance p.y s.y) range && leb (distance p.z s.z) range

unfoldable pub manhattan : Position → Position → ℕ
manhattan p s = distance p.x s.x + distance p.y s.y + distance p.z s.z

-- The nearest so far, with its distance, and one more station in range.
abbrev pub nearer : ℕ → EntityId → Option (ℕ × EntityId) → Option (ℕ × EntityId)
nearer d e none = some (d, e)
nearer d e (some (b, f)) = if ltb d b then some (d, e) else some (b, f)

abbrev pub entity_or_none : Option (ℕ × EntityId) → EntityId
entity_or_none none = no_entity
entity_or_none (some (d, e)) = e

-- INT64_MAX / 4, wider than the galaxy.
abbrev pub anywhere : ℕ
anywhere = 2305843009213693951

-- One station; it has a place, since it has a transform.
unfoldable pub consider :
    Position → ℕ → EntityId → Option Position → Option (ℕ × EntityId) → Option (ℕ × EntityId)
consider p range e none best = best
consider p range e (some t) best =
    if can_dock t p range then nearer (manhattan t p) e best else best

module _ {X : Type 0} where
  abbrev pub position_of : Option (Component X) → Option Position
  position_of (some (transform_component p)) = some p
  position_of _ = none

  abbrev pub dock_of : Option (Component X) → Option DockState
  dock_of (some (dock_component d)) = some d
  dock_of _ = none

  abbrev pub hold_of : Option (Component X) → Option CargoHold
  hold_of (some (hold_component h)) = some h
  hold_of _ = none

  -- The loop of `Each` over the stations with a transform.
  unfoldable pub nearest :
      Position
      → ℕ
      → List (EntityId × Component X × Component X)
      → Option (ℕ × EntityId)
      → Option (ℕ × EntityId)
  nearest p range [] best = best
  nearest p range ((e, s, t) ∷ es) best =
      nearest p range es (consider p range e (position_of (some t)) best)

  unfoldable pub nearest_station : Registry (Component X) → Position → ℕ → EntityId
  nearest_station world p range =
      entity_or_none (nearest p range (each_pair station_id transform_id world) none)

  unfoldable pub first_of_system : ℤ → List (EntityId × Component X × Component X) → EntityId
  first_of_system system [] = no_entity
  first_of_system system ((e, station_component s, t) ∷ es) =
      let rest = first_of_system system es in if s.system_id ==ℤ system then e else rest
  first_of_system system ((e, _, t) ∷ es) = first_of_system system es

  unfoldable pub find_station_by_system : Registry (Component X) → ℤ → EntityId
  find_station_by_system world system =
      first_of_system system (each_pair station_id transform_id world)

  -- `TryGet` on the entity, unless it is none.
  unfoldable pub station_place : EntityId → Registry (Component X) → Option Position
  station_place e world =
      if e.index == invalid_index then none else position_of (try_get transform_id e world)

  -- The player is put at the place, docked at the station of the index.
  unfoldable pub put_in_dock :
      EntityId → Position → ℕ → Registry (Component X) → Registry (Component X)
  put_in_dock player place index world =
      Registry.add dock_id player (dock_component (record { docked = true; station_id = index }))
        (Registry.add transform_id player (transform_component place) world)

  unfoldable pub empty_hold : EntityId → Registry (Component X) → Registry (Component X)
  empty_hold player world = elim (hold_of (try_get hold_id player world)) [
    | none ↦ world
    | some h ↦
        Registry.add hold_id player
          (hold_component (record h { units = replicate (length h.units) 0 })) world
  ]

  -- The station that a player wakes at, and what is done with it: `work` empties the hold after a
  -- death and leaves it alone after a load.
  abbrev pub wake_at :
      (Registry (Component X) → Registry (Component X))
      → EntityId
      → EntityId
      → Registry (Component X)
      → Bool × Registry (Component X)
  wake_at work player station world = elim (station_place station world) [
    | none ↦ (false, world)
    | some place ↦ (true, work (put_in_dock player place station.index world))
  ]

  unfoldable pub respawn_at_nearest_station :
      Registry (Component X) → EntityId → Bool × Registry (Component X)
  respawn_at_nearest_station world player = elim (position_of (try_get transform_id player world)) [
    | none ↦ (false, world)
    | some p ↦ elim (dock_of (try_get dock_id player world)) [
      | none ↦ (false, world)
      | some d ↦ wake_at (empty_hold player) player (nearest_station world p anywhere) world
    ]
  ]

  abbrev pub of_system_or_nearest : Registry (Component X) → Position → ℤ → EntityId
  of_system_or_nearest world p system =
      let chosen =
        if ltb_ℤ system (pos 0) then no_entity else find_station_by_system world system in
      if chosen.index == invalid_index then nearest_station world p anywhere else chosen

  unfoldable pub dock_at_system_or_nearest :
      Registry (Component X) → EntityId → ℤ → Bool × Registry (Component X)
  dock_at_system_or_nearest world player system =
      elim (position_of (try_get transform_id player world)) [
        | none ↦ (false, world)
        | some p ↦ elim (dock_of (try_get dock_id player world)) [
          | none ↦ (false, world)
          | some d ↦ wake_at (λ w. w) player (of_system_or_nearest world p system) world
        ]
      ]
