-- ===== src/Station/Trade.antt =====
-- Buying and selling goods: `BuyCommodity` and `SellCommodity` of GameLogic/StationServices.h.
pub mod Outcome
pub mod Conserve
use deepspace_outpost_dx.Base.{
  leb, ◌==◌, if◌then◌else◌, get_or, set, ℕ, Bool, not, ◌&&◌, ◌||◌, List,
}
use deepspace_outpost_dx.Game.Market.{commodity_count, MarketEntry, no_entry}
use deepspace_outpost_dx.Station.{
  CargoHold, StationStatus, ok, not_docked, no_stock, not_enough_credits, hold_full, no_cargo,
  bad_commodity, Wallet, counts_as_tonnage, total_tonnage, add_int, sub_int, mul_int, lt_int,
}

pub record TradeResult : Type 0 where
  pub status : StationStatus
  pub credits : ℕ
  pub cargo : ℕ

-- What a trade reads and writes.
pub record Till : Type 0 where
  pub wallet : Wallet
  pub hold : CargoHold
  pub market : List MarketEntry

abbrev pub units_of : ℕ → Till → ℕ
units_of ware t = get_or t.hold.units ware 0

abbrev pub entry_of : ℕ → Till → MarketEntry
entry_of ware t = get_or t.market ware no_entry

-- The quantity comes from a request and is not negative.
abbrev pub bought : ℕ → ℕ → Till → Till
bought ware qty t = record {
  wallet = sub_int t.wallet (mul_int (entry_of ware t).price qty);
  hold = record t.hold { units = set t.hold.units ware (add_int (units_of ware t) qty) };
  market =
      set t.market ware
        (record (entry_of ware t) { quantity = sub_int (entry_of ware t).quantity qty });
}

abbrev pub sold : ℕ → ℕ → Till → Till
sold ware qty t = record {
  wallet = add_int t.wallet (mul_int (entry_of ware t).price qty);
  hold = record t.hold { units = set t.hold.units ware (sub_int (units_of ware t) qty) };
  market =
      set t.market ware
        (record (entry_of ware t) { quantity = add_int (entry_of ware t).quantity qty });
}

abbrev pub refused : StationStatus → ℕ → Till → TradeResult × Till
refused status cargo t = (record { status = status; credits = t.wallet; cargo = cargo }, t)

abbrev pub done : ℕ → Till → TradeResult × Till
done ware t = (record { status = ok; credits = t.wallet; cargo = units_of ware t }, t)

unfoldable pub buy_commodity : Bool → ℕ → ℕ → Till → TradeResult × Till
buy_commodity docked ware qty t =
    let cargo = units_of ware t in
    let cost = mul_int (entry_of ware t).price qty in
    if not docked
    then refused not_docked 0 t
    else if leb commodity_count ware || qty == 0
    then refused bad_commodity 0 t
    else if lt_int (entry_of ware t).quantity qty
    then refused no_stock cargo t
    else if lt_int t.wallet cost
    then refused not_enough_credits cargo t
    else if counts_as_tonnage ware && lt_int t.hold.capacity (add_int (total_tonnage t.hold) qty)
    then refused hold_full cargo t
    else done ware (bought ware qty t)

unfoldable pub sell_commodity : Bool → ℕ → ℕ → Till → TradeResult × Till
sell_commodity docked ware qty t =
    let cargo = units_of ware t in
    if not docked
    then refused not_docked 0 t
    else if leb commodity_count ware || qty == 0
    then refused bad_commodity 0 t
    else if lt_int cargo qty
    then refused no_cargo cargo t
    else done ware (sold ware qty t)
