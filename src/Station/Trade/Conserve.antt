-- ===== src/Station/Trade/Conserve.antt =====
-- Trades make neither goods nor money, and keep to the capacity of the hold.
use deepspace_outpost_dx.Base.{
  ltb, if◌then◌else◌, Bool-cases, length, get_or, set, length-set, get_or-set, ℕ, zero, suc, ◌+◌,
  ◌-◌, ◌*◌, ◌^◌, ◌≤◌, ◌<◌, ◌≡◌, refl, ap, subst, ◌∙◌, ◌≢◌, inl, inr, Bool, false, ◌&&◌, List, [],
  ◌∷◌, arith,
}
use deepspace_outpost_dx.Game.Market.{commodity_count, MarketEntry, no_entry}
use deepspace_outpost_dx.Station.{
  ok, counts_as_tonnage, tonnage_from, total_tonnage, add_int, sub_int, mul_int, lt_int,
}
use deepspace_outpost_dx.Station.Trade.{
  TradeResult, Till, units_of, entry_of, bought, sold, buy_commodity, sell_commodity,
}
use deepspace_outpost_dx.Station.Trade.Outcome.{
  Fits, cost_small, Bought, no_purchase, purchase, Sold, no_sale, sale, buy_commodity-Bought,
  sell_commodity-Sold,
}

-- The hold and the market have a place for each ware.
pub record IsStocked (t : Till) : Type 0 where
  pub hold : length t.hold.units ≡ commodity_count
  pub market : length t.market ≡ commodity_count

-- The goods and the money of one ware are what they were, and the other commodities are untouched.
pub record Conserves (ware : ℕ) (t t' : Till) : Type 0 where
  pub goods :
      units_of ware t' + (entry_of ware t').quantity ≡ units_of ware t + (entry_of ware t).quantity
  pub price : (entry_of ware t').price ≡ (entry_of ware t).price
  pub money :
      t'.wallet + (entry_of ware t).price * units_of ware t'
      ≡ t.wallet + (entry_of ware t).price * units_of ware t
  pub others : (j : ℕ) → j ≢ ware → (units_of j t' ≡ units_of j t) × (entry_of j t' ≡ entry_of j t)
  pub capacity : t'.hold.capacity ≡ t.hold.capacity
  pub stocked : IsStocked t'

Conserves-refl : (ware : ℕ) (t : Till) → IsStocked t → Conserves ware t t
Conserves-refl ware t s = record {
  goods = refl;
  price = refl;
  money = refl;
  others = λ j h. (refl, refl);
  capacity = refl;
  stocked = s;
}

-- A trade without overflow.
abbrev exactly_bought : ℕ → ℕ → Till → Till
exactly_bought ware qty t = record {
  wallet = t.wallet - (entry_of ware t).price * qty;
  hold = record t.hold { units = set t.hold.units ware (units_of ware t + qty) };
  market =
      set t.market ware (record (entry_of ware t) { quantity = (entry_of ware t).quantity - qty });
}

abbrev exactly_sold : ℕ → ℕ → Till → Till
exactly_sold ware qty t = record {
  wallet = t.wallet + (entry_of ware t).price * qty;
  hold = record t.hold { units = set t.hold.units ware (units_of ware t - qty) };
  market =
      set t.market ware (record (entry_of ware t) { quantity = (entry_of ware t).quantity + qty });
}

bought_exact :
    (ware qty : ℕ) (t : Till)
    → Fits ware qty t
    → qty ≤ (entry_of ware t).quantity
    → (entry_of ware t).price * qty ≤ t.wallet
    → exactly_bought ware qty t ≡ bought ware qty t
bought_exact ware qty t f stock rich =
    let small = cost_small ware qty t f (omega (arith, stock)) in
    let paid : sub_int t.wallet (mul_int (entry_of ware t).price qty)
        ≡ t.wallet - (entry_of ware t).price * qty =
      omega (arith, small, rich) in
    let more : add_int (units_of ware t) qty ≡ units_of ware t + qty =
      omega (arith, f.goods, stock) in
    let less : sub_int (entry_of ware t).quantity qty ≡ (entry_of ware t).quantity - qty =
      omega (arith, f.goods, stock) in
    rw (paid, more, less) refl

sold_exact :
    (ware qty : ℕ) (t : Till)
    → Fits ware qty t
    → qty ≤ units_of ware t
    → exactly_sold ware qty t ≡ sold ware qty t
sold_exact ware qty t f stock =
    let small = cost_small ware qty t f (omega (arith, stock)) in
    let earned : add_int t.wallet (mul_int (entry_of ware t).price qty)
        ≡ t.wallet + (entry_of ware t).price * qty =
      omega (arith, small) in
    let less : sub_int (units_of ware t) qty ≡ units_of ware t - qty =
      omega (arith, f.goods, stock) in
    let more : add_int (entry_of ware t).quantity qty ≡ (entry_of ware t).quantity + qty =
      omega (arith, f.goods, stock) in
    rw (earned, less, more) refl

spend : (w p u q : ℕ) → p * q ≤ w → w - p * q + p * (u + q) ≡ w + p * u
spend w p u q h = grind arith

earn : (w p u q : ℕ) → q ≤ u → w + p * q + p * (u - q) ≡ w + p * u
earn w p u q h = grind arith

bought-Conserves :
    (ware qty : ℕ) (t : Till)
    → IsStocked t
    → ware < commodity_count
    → qty ≤ (entry_of ware t).quantity
    → (entry_of ware t).price * qty ≤ t.wallet
    → Conserves ware t (exactly_bought ware qty t)
bought-Conserves ware qty t s small stock rich = record {
  goods = ground (arith, units_bought, entry_bought, stock);
  price = ap (λ (e : MarketEntry). e.price) entry_bought;
  money =
      ap (λ (n : ℕ). t.wallet - (entry_of ware t).price * qty + (entry_of ware t).price * n)
        units_bought
      ∙ spend t.wallet (entry_of ware t).price (units_of ware t) qty rich;
  others = λ j h. (
    ground (arith, h, get_or-set t.hold.units ware j (units_of ware t + qty) 0),
    ground (
      arith,
      h,
      get_or-set t.market ware j
          (record (entry_of ware t) { quantity = (entry_of ware t).quantity - qty }) no_entry,
    ),
  );
  capacity = refl;
  stocked = record {
    hold = length-set t.hold.units ware _ ∙ s.hold;
    market = length-set t.market ware _ ∙ s.market;
  };
}
  where
    units_bought : units_of ware (exactly_bought ware qty t) ≡ units_of ware t + qty
    units_bought =
        ground (arith, small, s.hold, get_or-set t.hold.units ware ware (units_of ware t + qty) 0)

    entry_bought :
        entry_of ware (exactly_bought ware qty t)
        ≡ record (entry_of ware t) { quantity = (entry_of ware t).quantity - qty }
    entry_bought = ground (
      arith,
      small,
      s.market,
      get_or-set t.market ware ware
          (record (entry_of ware t) { quantity = (entry_of ware t).quantity - qty }) no_entry,
    )

sold-Conserves :
    (ware qty : ℕ) (t : Till)
    → IsStocked t
    → ware < commodity_count
    → qty ≤ units_of ware t
    → Conserves ware t (exactly_sold ware qty t)
sold-Conserves ware qty t s small stock = record {
  goods = ground (arith, units_sold, entry_sold, stock);
  price = ap (λ (e : MarketEntry). e.price) entry_sold;
  money =
      ap (λ (n : ℕ). t.wallet + (entry_of ware t).price * qty + (entry_of ware t).price * n)
        units_sold
      ∙ earn t.wallet (entry_of ware t).price (units_of ware t) qty stock;
  others = λ j h. (
    ground (arith, h, get_or-set t.hold.units ware j (units_of ware t - qty) 0),
    ground (
      arith,
      h,
      get_or-set t.market ware j
          (record (entry_of ware t) { quantity = (entry_of ware t).quantity + qty }) no_entry,
    ),
  );
  capacity = refl;
  stocked = record {
    hold = length-set t.hold.units ware _ ∙ s.hold;
    market = length-set t.market ware _ ∙ s.market;
  };
}
  where
    units_sold : units_of ware (exactly_sold ware qty t) ≡ units_of ware t - qty
    units_sold =
        ground (arith, small, s.hold, get_or-set t.hold.units ware ware (units_of ware t - qty) 0)

    entry_sold :
        entry_of ware (exactly_sold ware qty t)
        ≡ record (entry_of ware t) { quantity = (entry_of ware t).quantity + qty }
    entry_sold = ground (
      arith,
      small,
      s.market,
      get_or-set t.market ware ware
          (record (entry_of ware t) { quantity = (entry_of ware t).quantity + qty }) no_entry,
    )

Bought-Conserves :
    (docked : Bool) (ware qty : ℕ) (t : Till) (r : TradeResult × Till)
    → IsStocked t
    → Fits ware qty t
    → Bought docked ware qty t r
    → Conserves ware t r.1
Bought-Conserves docked ware qty t r s f (no_purchase status cargo bad) = Conserves-refl ware t s
Bought-Conserves docked ware qty t r s f (purchase here small stock rich room) =
    subst (Conserves ware t) (bought_exact ware qty t f stock rich)
      (bought-Conserves ware qty t s small stock rich)

Sold-Conserves :
    (docked : Bool) (ware qty : ℕ) (t : Till) (r : TradeResult × Till)
    → IsStocked t
    → Fits ware qty t
    → Sold docked ware qty t r
    → Conserves ware t r.1
Sold-Conserves docked ware qty t r s f (no_sale status cargo bad) = Conserves-refl ware t s
Sold-Conserves docked ware qty t r s f (sale here small stock) =
    subst (Conserves ware t) (sold_exact ware qty t f stock)
      (sold-Conserves ware qty t s small stock)

-- With a place for each commodity in hold and market, and if the quantity, the goods of the
-- commodity in both, and the wallet with all these goods at their price fit an int: neither a
-- purchase nor a sale, granted or refused, changes how much of the commodity there is in both, its
-- price, what the wallet and the player's units are worth together at this price, any other
-- commodity, or the hold's capacity.
pub trade-Conserves :
    (docked : Bool) (ware qty : ℕ) (t : Till)
    → IsStocked t
    → Fits ware qty t
    → Conserves ware t (buy_commodity docked ware qty t).1
      × Conserves ware t (sell_commodity docked ware qty t).1
trade-Conserves docked ware qty t s f = (
  Bought-Conserves docked ware qty t _ s f (buy_commodity-Bought docked ware qty t f),
  Sold-Conserves docked ware qty t _ s f (sell_commodity-Sold docked ware qty t f),
)

zero_add : (n : ℕ) → 0 + n ≡ n
zero_add n = omega arith

add_zero : (n : ℕ) → n + 0 ≡ n
add_zero n = omega arith

add_suc : (n i : ℕ) → n + suc i ≡ suc n + i
add_suc n i = omega arith

tonnage-set :
    (first i n : ℕ) (us : List ℕ)
    → tonnage_from first (set us i n)
        + (if ltb i (length us) && counts_as_tonnage (first + i) then get_or us i 0 else 0)
      ≡ tonnage_from first us
        + (if ltb i (length us) && counts_as_tonnage (first + i) then n else 0)
unfolding tonnage_from
tonnage-set first i n [] = ground arith
tonnage-set first zero n (u ∷ us) = ground (arith, ap counts_as_tonnage (add_zero first))
tonnage-set first (suc i) n (u ∷ us) =
    ground (arith, tonnage-set (suc first) i n us, ap counts_as_tonnage (add_suc first i))

-- The tonnage, with what is bought, and the capacity are within an `int`.
pub record IsLight (qty : ℕ) (t : Till) : Type 0 where
  pub tonnage : tonnage_from 0 t.hold.units + qty < 2 ^ 31
  pub capacity : t.hold.capacity < 2 ^ 31

tonnage_room :
    (ware qty : ℕ) (t : Till)
    → IsLight qty t
    → total_tonnage t.hold ≤ t.hold.capacity
    → (counts_as_tonnage ware && lt_int t.hold.capacity (add_int (total_tonnage t.hold) qty))
      ≡ false
    → total_tonnage (exactly_bought ware qty t).hold ≤ t.hold.capacity
unfolding total_tonnage
tonnage_room ware qty t l fits room =
    let set_lem = tonnage-set 0 ware (units_of ware t + qty) t.hold.units in
    let same = ap counts_as_tonnage (zero_add ware) in
    elim (Bool-cases (counts_as_tonnage ware)) [
      | inr weightless ↦ ground (arith, fits, l.tonnage, set_lem, same, weightless)
      | inl heavy ↦ ground (arith, fits, room, l.tonnage, l.capacity, set_lem, same, heavy)
    ]

Bought-capacity :
    (docked : Bool) (ware qty : ℕ) (t : Till) (r : TradeResult × Till)
    → Fits ware qty t
    → IsLight qty t
    → Bought docked ware qty t r
    → total_tonnage t.hold ≤ t.hold.capacity
    → total_tonnage r.1.hold ≤ r.1.hold.capacity
Bought-capacity docked ware qty t r f l (no_purchase status cargo bad) h = h
Bought-capacity docked ware qty t r f l (purchase here small stock rich room) h =
    subst (λ (t' : Till). total_tonnage t'.hold ≤ t.hold.capacity)
      (bought_exact ware qty t f stock rich) (tonnage_room ware qty t l h room)

-- A hold that is not overloaded is not overloaded by a purchase, granted or refused, if the sums fit an
-- int.
pub buy_commodity_capacity :
    (docked : Bool) (ware qty : ℕ) (t : Till)
    → Fits ware qty t
    → IsLight qty t
    → total_tonnage t.hold ≤ t.hold.capacity
    → total_tonnage (buy_commodity docked ware qty t).1.hold
      ≤ (buy_commodity docked ware qty t).1.hold.capacity
buy_commodity_capacity docked ware qty t f l =
    Bought-capacity docked ware qty t _ f l (buy_commodity-Bought docked ware qty t f)

Bought-refused :
    (docked : Bool) (ware qty : ℕ) (t : Till) (r : TradeResult × Till)
    → Bought docked ware qty t r
    → r.0.status ≢ ok
    → r.1 ≡ t
Bought-refused docked ware qty t r (no_purchase status cargo bad) h = refl
Bought-refused docked ware qty t r (purchase here small stock rich room) h = absurd (h refl)

Sold-refused :
    (docked : Bool) (ware qty : ℕ) (t : Till) (r : TradeResult × Till)
    → Sold docked ware qty t r
    → r.0.status ≢ ok
    → r.1 ≡ t
Sold-refused docked ware qty t r (no_sale status cargo bad) h = refl
Sold-refused docked ware qty t r (sale here small stock) h = absurd (h refl)
