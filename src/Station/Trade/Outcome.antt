-- ===== src/Station/Trade/Outcome.antt =====
-- What a trade comes to: it is refused and changes nothing, or all its guards hold.
use deepspace_outpost_dx.Base.{
  leb, ◌==◌, Bool-cases, ℕ, ◌+◌, ◌*◌, ◌^◌, ◌≤◌, ◌<◌, ◌≡◌, refl, ◌≢◌, inl, inr, Bool, true, false,
  ◌&&◌, ◌||◌, arith,
}
use deepspace_outpost_dx.Game.Market.{commodity_count}
use deepspace_outpost_dx.Station.{
  StationStatus, ok, not_docked, no_stock, not_enough_credits, hold_full, no_cargo, bad_commodity,
  counts_as_tonnage, total_tonnage, add_int, mul_int, lt_int,
}
use deepspace_outpost_dx.Station.Trade.{
  TradeResult, Till, units_of, entry_of, bought, sold, refused, done, buy_commodity, sell_commodity,
}

-- What keeps the sums of a trade within an `int`.
pub record Fits (ware qty : ℕ) (t : Till) : Type 0 where
  pub quantity : qty < 2 ^ 31
  pub goods : units_of ware t + (entry_of ware t).quantity < 2 ^ 31
  pub money :
      t.wallet + (entry_of ware t).price * (units_of ware t + (entry_of ware t).quantity) < 2 ^ 31

mul_le : (p q n : ℕ) → q ≤ n → p * q ≤ p * n
mul_le p q n h = grind arith

-- The price of what is there is within an `int`.
pub cost_small :
    (ware qty : ℕ) (t : Till)
    → Fits ware qty t
    → qty ≤ units_of ware t + (entry_of ware t).quantity
    → t.wallet + (entry_of ware t).price * qty < 2 ^ 31
cost_small ware qty t f enough = omega (
  arith,
  f.money,
  mul_le (entry_of ware t).price qty (units_of ware t + (entry_of ware t).quantity) enough,
)

affords :
    (ware qty : ℕ) (t : Till)
    → Fits ware qty t
    → qty ≤ (entry_of ware t).quantity
    → lt_int t.wallet (mul_int (entry_of ware t).price qty) ≡ false
    → (entry_of ware t).price * qty ≤ t.wallet
affords ware qty t f enough rich =
    let small = cost_small ware qty t f (omega (arith, enough)) in ground (arith, small, rich)

pub data Bought (docked : Bool) (ware qty : ℕ) (t : Till) : TradeResult × Till → Type 0 where
  no_purchase :
      (status : StationStatus) (cargo : ℕ)
      → status ≢ ok
      → Bought docked ware qty t (refused status cargo t)
  purchase :
      docked ≡ true
      → ware < commodity_count
      → qty ≤ (entry_of ware t).quantity
      → (entry_of ware t).price * qty ≤ t.wallet
      → (counts_as_tonnage ware && lt_int t.hold.capacity (add_int (total_tonnage t.hold) qty))
        ≡ false
      → Bought docked ware qty t (done ware (bought ware qty t))

pub data Sold (docked : Bool) (ware qty : ℕ) (t : Till) : TradeResult × Till → Type 0 where
  no_sale :
      (status : StationStatus) (cargo : ℕ)
      → status ≢ ok
      → Sold docked ware qty t (refused status cargo t)
  sale :
      docked ≡ true
      → ware < commodity_count
      → qty ≤ units_of ware t
      → Sold docked ware qty t (done ware (sold ware qty t))

pub buy_commodity-Bought :
    (docked : Bool) (ware qty : ℕ) (t : Till)
    → Fits ware qty t
    → Bought docked ware qty t (buy_commodity docked ware qty t)
unfolding buy_commodity
buy_commodity-Bought false ware qty t f = no_purchase not_docked 0 (λ e. cc)
buy_commodity-Bought true ware qty t f = elim (Bool-cases (leb commodity_count ware || qty == 0)) [
  | inl bad ↦ rw (bad, buy_commodity) (no_purchase bad_commodity 0 (λ e. cc))
  | inr good ↦ elim (Bool-cases (lt_int (entry_of ware t).quantity qty)) [
    | inl short ↦ rw (good, short, buy_commodity) (no_purchase no_stock (units_of ware t) (λ e. cc))
    | inr stock ↦ elim (Bool-cases (lt_int t.wallet (mul_int (entry_of ware t).price qty))) [
      | inl poor ↦
          rw (good, stock, poor, buy_commodity)
            (no_purchase not_enough_credits (units_of ware t) (λ e. cc))
      | inr rich ↦
          elim (Bool-cases (
            counts_as_tonnage ware
            && lt_int t.hold.capacity (add_int (total_tonnage t.hold) qty))) [
              | inl full ↦
                  rw (good, stock, rich, full, buy_commodity)
                    (no_purchase hold_full (units_of ware t) (λ e. cc))
              | inr room ↦
                  rw (good, stock, rich, room, buy_commodity)
                    (let enough : qty ≤ (entry_of ware t).quantity =
                        ground (arith, stock, f.quantity, f.goods) in
                      purchase refl (ground (arith, good)) enough (affords ware qty t f enough rich)
                        room)
            ]
    ]
  ]
]

pub sell_commodity-Sold :
    (docked : Bool) (ware qty : ℕ) (t : Till)
    → Fits ware qty t
    → Sold docked ware qty t (sell_commodity docked ware qty t)
unfolding sell_commodity
sell_commodity-Sold false ware qty t f = no_sale not_docked 0 (λ e. cc)
sell_commodity-Sold true ware qty t f = elim (Bool-cases (leb commodity_count ware || qty == 0)) [
  | inl bad ↦ rw (bad, sell_commodity) (no_sale bad_commodity 0 (λ e. cc))
  | inr good ↦ elim (Bool-cases (lt_int (units_of ware t) qty)) [
    | inl short ↦ rw (good, short, sell_commodity) (no_sale no_cargo (units_of ware t) (λ e. cc))
    | inr stock ↦
        rw (good, stock, sell_commodity)
          (sale refl (ground (arith, good)) (ground (arith, stock, f.quantity, f.goods)))
  ]
]
