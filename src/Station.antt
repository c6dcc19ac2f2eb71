-- ===== src/Station.antt =====
-- GameLogic/StationServices.h: docking, trading and equipment at a station.
-- Credits, prices, units and fuel are `int`s that the code never takes below zero, except when a sum
-- overflows. They are numbers here, the bits of the `int`; where a sum or product of a trade may
-- overflow, its wrap-around is written out. The ids of component types are arbitrary.
pub mod Trade
pub mod Fit
pub mod Place
pub mod Request
pub mod Docking
mod Tests
use deepspace_outpost_dx.Base.{
  ltb, leb, if◌then◌else◌, replicate, ℕ, suc, ◌+◌, ◌-◌, ◌*◌, ◌%◌, ◌^◌, Bool, List, [], ◌∷◌,
}
use deepspace_outpost_dx.Base.Int.{ℤ}
use deepspace_outpost_dx.Game.Market.{commodity_count, MarketEntry}

pub record CargoHold : Type 0 where
  pub units : List ℕ
  pub capacity : ℕ

abbrev pub new_hold : CargoHold
new_hold = record { units = replicate commodity_count 0; capacity = 20 }

pub record DockState : Type 0 where
  pub docked : Bool
  pub station_id : ℕ

pub record Equipment : Type 0 where
  pub missiles : ℕ
  pub large_cargo_bay : Bool
  pub ecm : Bool
  pub fuel_scoop : Bool
  pub energy_bomb : Bool
  pub escape_pod : Bool
  pub mining_laser : Bool

abbrev pub max_fuel_tenths : ℕ
max_fuel_tenths = 70

abbrev pub fuel_price_per_tenth : ℕ
fuel_price_per_tenth = 2

pub record Fuel : Type 0 where
  pub tenths : ℕ
  pub most : ℕ

pub record ServerStation : Type 0 where
  pub system_id : ℤ
  pub market : List MarketEntry

-- `StationStatus` without the retired values.
pub data StationStatus : Type 0 where
  ok not_docked no_stock not_enough_credits hold_full no_cargo : StationStatus
  bad_commodity cant_dock already_owned docking_refused : StationStatus

-- A wallet is the number of its credits.
abbrev pub Wallet : Type 0
Wallet = ℕ

unfoldable pub counts_as_tonnage : ℕ → Bool
counts_as_tonnage ware = leb ware 12

-- The loop of `TotalTonnage` from the ware on.
unfoldable pub tonnage_from : ℕ → List ℕ → ℕ
tonnage_from ware [] = 0
tonnage_from ware (n ∷ ns) = (if counts_as_tonnage ware then n else 0) + tonnage_from (suc ware) ns

unfoldable pub total_tonnage : CargoHold → ℕ
total_tonnage hold = tonnage_from 0 hold.units % 2 ^ 32

-- Sums, differences and the order of `int`s, on their 32 bits.
abbrev pub add_int : ℕ → ℕ → ℕ
add_int a b = (a + b) % 2 ^ 32

abbrev pub sub_int : ℕ → ℕ → ℕ
sub_int a b = (a + (2 ^ 32 - b % 2 ^ 32)) % 2 ^ 32

abbrev pub mul_int : ℕ → ℕ → ℕ
mul_int a b = a * b % 2 ^ 32

abbrev pub lt_int : ℕ → ℕ → Bool
lt_int a b = ltb ((a + 2 ^ 31) % 2 ^ 32) ((b + 2 ^ 31) % 2 ^ 32)
