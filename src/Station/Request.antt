-- ===== src/Station/Request.antt =====
-- One station request on the world: `ProcessStationRequest` of GameLogic/StationServices.h.
use deepspace_outpost_dx.Base.{
  ltb, ◌==◌, if◌then◌else◌, get_or, ℕ, ◌%◌, ◌^◌, Bool, true, false, not, Option, none, some,
}
use deepspace_outpost_dx.Base.Int.{pos, ltb_ℤ}
use deepspace_outpost_dx.Ecs.Registry.{EntityId, no_entity, Registry, add, try_get, remove}
use deepspace_outpost_dx.Ecs.Pool.{invalid_index}
use deepspace_outpost_dx.Ecs.Registry
use deepspace_outpost_dx.Game.Market.{commodity_count}
use deepspace_outpost_dx.Station.{
  CargoHold, DockState, Equipment, Fuel, ServerStation, StationStatus, ok, not_docked,
  bad_commodity, cant_dock, docking_refused, Wallet,
}
use deepspace_outpost_dx.Station.Trade.{TradeResult, Till, buy_commodity, sell_commodity}
use deepspace_outpost_dx.Station.Fit.{equip_player, refuel_player}
use deepspace_outpost_dx.Station.Place.{
  Position, Component, wallet_component, hold_component, dock_component, equipment_component,
  fuel_component, station_component, transform_component, wanted_component, other_component,
  wallet_id, hold_id, dock_id, equipment_id, fuel_id, station_id, transform_id, wanted_id,
  position_of, dock_of, hold_of, nearest_station,
}

pub data RequestKind : Type 0 where
  dock undock buy sell equip refuel unknown : RequestKind

-- `commodity` is the commodity, or the item of equipment.
pub record StationRequest : Type 0 where
  pub kind : RequestKind
  pub commodity : ℕ
  pub quantity : ℕ

pub record StationResponse : Type 0 where
  pub kind : RequestKind
  pub status : StationStatus
  pub credits : ℕ
  pub commodity : ℕ
  pub cargo : ℕ

-- The components with floating-point fields that a launch writes: a flight is levelled and stopped, a
-- cruise starts at a position, and a combatant is made immune for the exit.
pub record Launch (X : Type 0) : Type 0 where
  pub flight_id : ℕ
  pub level : X → X
  pub cruise_id : ℕ
  pub cruise : Position → X
  pub combatant_id : ℕ
  pub immune : X → X

-- What the player has that every service wants.
pub record Trader : Type 0 where
  pub wallet : Wallet
  pub hold : CargoHold
  pub dock : DockState

abbrev pub in_dock : ℕ → DockState
in_dock index = record { docked = true; station_id = index }

-- Each service gives the status, the credits and the cargo of the response, and the world.
abbrev pub Served : Type 0 → Type 0
Served X = StationStatus × ℕ × ℕ × Registry (Component X)

-- The station is looked for under generation 0.
abbrev pub station_handle : DockState → EntityId
station_handle d = record { index = d.station_id; generation = 0 }

module _ {X : Type 0} where
  abbrev wallet_of : Option (Component X) → Option Wallet
  wallet_of (some (wallet_component w)) = some w
  wallet_of _ = none

  abbrev equipment_of : Option (Component X) → Option Equipment
  equipment_of (some (equipment_component e)) = some e
  equipment_of _ = none

  abbrev fuel_of : Option (Component X) → Option Fuel
  fuel_of (some (fuel_component f)) = some f
  fuel_of _ = none

  abbrev station_of : Option (Component X) → Option ServerStation
  station_of (some (station_component s)) = some s
  station_of _ = none

  -- At the threshold a player is a fugitive.
  abbrev pub is_fugitive : Option (Component X) → Bool
  is_fugitive (some (wanted_component level)) = not (ltb_ℤ level (pos 8))
  is_fugitive _ = false

  abbrev over : ℕ → (X → X) → EntityId → Registry (Component X) → Registry (Component X)
  over id f e world = elim (try_get id e world) [
    | none ↦ world
    | some c ↦ elim c [
      | other_component x ↦ Registry.add id e (other_component (f x)) world
      | _ ↦ world
    ]
  ]

  unfoldable pub trader_of : EntityId → Registry (Component X) → Option Trader
  trader_of player world = elim (wallet_of (try_get wallet_id player world)) [
    | none ↦ none
    | some w ↦ elim (hold_of (try_get hold_id player world)) [
      | none ↦ none
      | some h ↦ elim (dock_of (try_get dock_id player world)) [
        | none ↦ none
        | some d ↦ some (record { wallet = w; hold = h; dock = d })
      ]
    ]
  ]

  abbrev pub set_dock : EntityId → DockState → Registry (Component X) → Registry (Component X)
  set_dock player d world = Registry.add dock_id player (dock_component d) world

  abbrev pub station_near : EntityId → ℕ → Registry (Component X) → EntityId
  station_near player range world = elim (position_of (try_get transform_id player world)) [
    | none ↦ no_entity
    | some p ↦ nearest_station world p range
  ]

  unfoldable pub serve_dock : EntityId → ℕ → Trader → ℕ → Registry (Component X) → Served X
  serve_dock player range t cargo world =
      let station = station_near player range world in
      if is_fugitive (try_get wanted_id player world)
      then (docking_refused, t.wallet, cargo, world)
      else if station.index == invalid_index
      then (cant_dock, t.wallet, cargo, world)
      else (ok, t.wallet, cargo, set_dock player (in_dock station.index) world)

  unfoldable pub launch :
      Launch X → EntityId → Position → Registry (Component X) → Registry (Component X)
  launch l player place world =
      let moved = Registry.add transform_id player (transform_component place) world in
      let level = over l.flight_id l.level player moved in
      let off = Registry.remove l.cruise_id player level in
      let away = Registry.add l.cruise_id player (other_component (l.cruise place)) off in
      over l.combatant_id l.immune player away

  unfoldable pub serve_undock : Launch X → EntityId → Trader → ℕ → Registry (Component X) → Served X
  serve_undock l player t cargo world =
      let out = record t.dock { docked = false } in
      let stay : Served X = (ok, t.wallet, cargo, set_dock player out world) in
      elim (position_of (try_get transform_id player world)) [
        | none ↦ stay
        | some p ↦ elim (position_of (try_get transform_id (station_handle t.dock) world)) [
          | none ↦ stay
          | some place ↦ (ok, t.wallet, cargo, set_dock player out (launch l player place world))
        ]
      ]

  -- What a trade has written, in the player's and the station's components.
  abbrev write_till :
      EntityId → EntityId → ServerStation → Till → Registry (Component X) → Registry (Component X)
  write_till player station s t world =
      Registry.add station_id station (station_component (record s { market = t.market })) (
        Registry.add hold_id player (hold_component t.hold)
          (Registry.add wallet_id player (wallet_component t.wallet) world))

  unfoldable pub serve_trade :
      (Bool → ℕ → ℕ → Till → TradeResult × Till)
      → EntityId
      → ℕ
      → ℕ
      → Trader
      → ℕ
      → Registry (Component X)
      → Served X
  serve_trade trade player ware qty t cargo world =
      if not t.dock.docked
      then (not_docked, t.wallet, cargo, world)
      else elim (station_of (try_get station_id (station_handle t.dock) world)) [
        | none ↦ (cant_dock, t.wallet, cargo, world)
        | some s ↦
            let (r, till) =
              trade true ware qty
                (record { wallet = t.wallet; hold = t.hold; market = s.market }) in
            (
              r.status,
              r.credits,
              r.cargo % 2 ^ 16,
              write_till player (station_handle t.dock) s till world,
            )
      ]

  unfoldable pub serve_equip : EntityId → ℕ → Trader → ℕ → Registry (Component X) → Served X
  serve_equip player item t cargo world = elim (equipment_of (try_get equipment_id player world)) [
    | none ↦ (bad_commodity, t.wallet, cargo, world)
    | some e ↦
        let (status, credits, o) =
          equip_player item (record { wallet = t.wallet; equipment = e; hold = t.hold }) in
        if not t.dock.docked then (not_docked, t.wallet, cargo, world) else (
          status,
          credits,
          cargo,
          Registry.add hold_id player (hold_component o.hold) (
              Registry.add equipment_id player (equipment_component o.equipment)
                (Registry.add wallet_id player (wallet_component o.wallet) world)),
        )
  ]

  unfoldable pub serve_refuel : EntityId → Trader → ℕ → Registry (Component X) → Served X
  serve_refuel player t cargo world = elim (fuel_of (try_get fuel_id player world)) [
    | none ↦ (bad_commodity, t.wallet, cargo, world)
    | some f ↦
        let (status, w, f') = refuel_player t.dock.docked t.wallet f in
        (
          status,
          w,
          cargo,
          Registry.add fuel_id player (fuel_component f')
              (Registry.add wallet_id player (wallet_component w) world),
        )
  ]

  unfoldable pub serve :
      Launch X → EntityId → ℕ → StationRequest → Trader → ℕ → Registry (Component X) → Served X
  serve l player range req t cargo world = elim req.kind [
    | dock ↦ serve_dock player range t cargo world
    | undock ↦ serve_undock l player t cargo world
    | buy ↦ serve_trade buy_commodity player req.commodity req.quantity t cargo world
    | sell ↦ serve_trade sell_commodity player req.commodity req.quantity t cargo world
    | equip ↦ serve_equip player req.commodity t cargo world
    | refuel ↦ serve_refuel player t cargo world
    | unknown ↦ (bad_commodity, t.wallet, cargo, world)
  ]

  abbrev respond : StationRequest → Served X → StationResponse × Registry (Component X)
  respond req (status, credits, cargo, world) = (
    record {
      kind = req.kind;
      status = status;
      credits = credits;
      commodity = req.commodity;
      cargo = cargo;
    },
    world,
  )

  unfoldable pub process_station_request :
      Launch X
      → EntityId
      → ℕ
      → StationRequest
      → Registry (Component X)
      → StationResponse × Registry (Component X)
  process_station_request l player range req world = elim (trader_of player world) [
    | none ↦ respond req (bad_commodity, 0, 0, world)
    | some t ↦
        let held = if ltb req.commodity commodity_count then req.commodity else 0 in
        respond req (serve l player range req t (get_or t.hold.units held 0 % 2 ^ 16) world)
  ]
