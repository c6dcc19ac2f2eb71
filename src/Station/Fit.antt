-- ===== src/Station/Fit.antt =====
-- Equipment, escorts and fuel: `EquipPlayer`, `BuyEscort` and `RefuelPlayer` of
-- GameLogic/StationServices.h.
pub mod Laws
use deepspace_outpost_dx.Base.{
  ltb, leb, ◌==◌, if◌then◌else◌, ℕ, ◌+◌, ◌-◌, ◌*◌, ◌/◌, min, Bool, true, not, ◌&&◌,
}
use deepspace_outpost_dx.Station.{
  CargoHold, DockState, Equipment, fuel_price_per_tenth, Fuel, StationStatus, ok, not_docked,
  not_enough_credits, bad_commodity, already_owned, Wallet,
}

-- `EquipItem` as its number: 7, the escort, is no fitted item, and unknown numbers have no price.
unfoldable pub equip_price : ℕ → ℕ
equip_price item =
    if item == 1
    then 300
    else if item == 2
    then 4000
    else if item == 3
    then 6000
    else if item == 4
    then 5250
    else if item == 5
    then 9000
    else if item == 6
    then 10000
    else if item == 8
    then 2000
    else 0

unfoldable pub already_has : Equipment → ℕ → Bool
already_has eq item =
    if item == 1
    then leb 4 eq.missiles
    else if item == 2
    then eq.large_cargo_bay
    else if item == 3
    then eq.ecm
    else if item == 4
    then eq.fuel_scoop
    else if item == 5
    then eq.energy_bomb
    else if item == 6
    then eq.escape_pod
    else item == 8 && eq.mining_laser

-- What an equipment purchase reads and writes.
pub record Outfit : Type 0 where
  pub wallet : Wallet
  pub equipment : Equipment
  pub hold : CargoHold

abbrev pub enlarge : CargoHold → CargoHold
enlarge hold = record hold { capacity = hold.capacity + 15 }

unfoldable pub fit : ℕ → Outfit → Outfit
fit item o =
    let eq = o.equipment in
    if item == 1
    then record o { equipment = record eq { missiles = eq.missiles + 1 } }
    else if item == 2
    then record o { equipment = record eq { large_cargo_bay = true }; hold = enlarge o.hold }
    else if item == 3
    then record o { equipment = record eq { ecm = true } }
    else if item == 4
    then record o { equipment = record eq { fuel_scoop = true } }
    else if item == 5
    then record o { equipment = record eq { energy_bomb = true } }
    else if item == 6
    then record o { equipment = record eq { escape_pod = true } }
    else if item == 8
    then record o { equipment = record eq { mining_laser = true } }
    else o

-- The status and the credits of the result, and what is left.
unfoldable pub equip_player : ℕ → Outfit → StationStatus × ℕ × Outfit
equip_player item o =
    let price = equip_price item in
    if price == 0
    then (bad_commodity, o.wallet, o)
    else if already_has o.equipment item
    then (already_owned, o.wallet, o)
    else if ltb o.wallet price
    then (not_enough_credits, o.wallet, o)
    else (ok, o.wallet - price, fit item (record o { wallet = o.wallet - price }))

abbrev pub escort_fighter_price : ℕ
escort_fighter_price = 50000

unfoldable pub buy_escort : DockState → ℕ → ℕ → Wallet → StationStatus × ℕ × Wallet
buy_escort dock current most wallet =
    if not dock.docked
    then (not_docked, wallet, wallet)
    else if leb most current
    then (already_owned, wallet, wallet)
    else if ltb wallet escort_fighter_price
    then (not_enough_credits, wallet, wallet)
    else (ok, wallet - escort_fighter_price, wallet - escort_fighter_price)

unfoldable pub refuel_player : Bool → Wallet → Fuel → StationStatus × Wallet × Fuel
refuel_player docked wallet fuel =
    let need = fuel.most - fuel.tenths in
    let buy = min need (wallet / fuel_price_per_tenth) in
    if not docked
    then (not_docked, wallet, fuel)
    else if need == 0
    then (ok, wallet, fuel)
    else if buy == 0
    then (not_enough_credits, wallet, fuel)
    else (ok, wallet - buy * fuel_price_per_tenth, record fuel { tenths = fuel.tenths + buy })
