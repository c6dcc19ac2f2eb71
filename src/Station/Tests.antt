-- ===== src/Station/Tests.antt =====
-- A player at a station, at concrete values.
use deepspace_outpost_dx.Base.{
  replicate, ℕ, ◌+◌, ◌*◌, ◌≤◌, ◌<◌, ◌≡◌, refl, ◌⊎◌, true, false, [], arith,
}
use deepspace_outpost_dx.Base.Int.{pos, negsuc, ◌-ℤ◌}
use deepspace_outpost_dx.Ecs.Registry.{
  EntityId, Registry, empty_registry, create, try_pool_for, add, try_get, with_second, each_pair,
}
use deepspace_outpost_dx.Ecs.Registry
use deepspace_outpost_dx.Ecs.Pool
use deepspace_outpost_dx.Station.{new_hold, ok, counts_as_tonnage, tonnage_from, total_tonnage}
use deepspace_outpost_dx.Station.Trade.{Till, buy_commodity, sell_commodity}
use deepspace_outpost_dx.Station.Trade.Outcome.{Fits}
use deepspace_outpost_dx.Station.Trade.Conserve.{IsStocked, Conserves, trade-Conserves}
use deepspace_outpost_dx.Station.Fit.{Outfit, equip_player, refuel_player}
use deepspace_outpost_dx.Station.Fit.Laws.{refuel_player-fair, IsFair, equip_player-IsFair}
use deepspace_outpost_dx.Station.Place.{
  Position, Component, station_component, transform_component, station_id, transform_id, can_dock,
  manhattan, consider, nearest, nearest_station,
}
use deepspace_outpost_dx.Station.Place.Nearest.{Nearest, nearest_station-Nearest}
use deepspace_outpost_dx.Station.Request.{serve_dock}
use deepspace_outpost_dx.Station.Docking.{Docks, serve_dock-Docks}

abbrev stall : Till
stall = record {
  wallet = 1000;
  hold = new_hold;
  market = replicate 17 (record { price = 76; quantity = 16 });
}

stall-IsStocked : IsStocked stall
stall-IsStocked = record { hold = refl; market = refl }

stall-Fits : Fits 0 5 stall
stall-Fits = record { quantity = omega arith; goods = omega arith; money = omega arith }

trade-Conserves_example :
    Conserves 0 stall (buy_commodity true 0 5 stall).1
    × Conserves 0 stall (sell_commodity true 0 5 stall).1
trade-Conserves_example = trade-Conserves true 0 5 stall stall-IsStocked stall-Fits

five_bought : (buy_commodity true 0 5 stall).0 ≡ record { status = ok; credits = 620; cargo = 5 }
unfolding buy_commodity counts_as_tonnage total_tonnage tonnage_from
five_bought = refl

refuel_player-fair_example :
    let (status, left, filled) = refuel_player true 31 (record { tenths = 40; most = 70 }) in
    (filled.tenths ≤ 70)
    × (filled.most ≡ 70)
    × (left + 2 * filled.tenths ≡ 31 + 2 * 40)
    × (status ≡ ok → (filled.tenths ≡ 70) ⊎ (left < 2))
refuel_player-fair_example =
    refuel_player-fair true 31 (record { tenths = 40; most = 70 }) (omega arith)

abbrev bare : Outfit
bare = record {
  wallet = 5000;
  equipment = record {
    missiles = 3;
    large_cargo_bay = false;
    ecm = false;
    fuel_scoop = false;
    energy_bomb = false;
    escape_pod = false;
    mining_laser = false;
  };
  hold = new_hold;
}

equip_player-IsFair_example : IsFair 2 bare (equip_player 2 bare)
equip_player-IsFair_example = equip_player-IsFair 2 bare

abbrev origin : Position
origin = record { x = pos 0; y = pos 0; z = pos 0 }

abbrev post : Position
post = record { x = pos 100; y = negsuc 9; z = pos 0 }

-- One station, and a player next to it.
abbrev first : EntityId × Registry (Component ℕ)
first = create empty_registry

abbrev second : EntityId × Registry (Component ℕ)
second = create first.1

abbrev space : Registry (Component ℕ)
space = Registry.add transform_id second.0 (transform_component origin) (
    Registry.add station_id first.0 (station_component (record { system_id = pos 7; market = [] }))
      (Registry.add transform_id first.0 (transform_component post) second.1))

nearest_station-Nearest_example :
    Nearest origin 500 (each_pair station_id transform_id space) (nearest_station space origin 500)
nearest_station-Nearest_example = nearest_station-Nearest space origin 500

serve_dock-Docks_example : Docks second.0 500 space (
    serve_dock second.0 500
      (record { wallet = 1000; hold = new_hold; dock = record { docked = false; station_id = 0 } })
      0
      space)
serve_dock-Docks_example =
    serve_dock-Docks second.0 500 space
      (record { wallet = 1000; hold = new_hold; dock = record { docked = false; station_id = 0 } })
      0

station_found : nearest_station space origin 500 ≡ first.0
station_found =
    unfold nearest_station nearest consider can_dock manhattan create each_pair Registry.add
      with_second try_pool_for Pool.each Pool.try_get Pool.has Pool.set_component Pool.visit
      Pool.set_grown Pool.resize ◌-ℤ◌ in
    refl
