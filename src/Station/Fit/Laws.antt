-- ===== src/Station/Fit/Laws.antt =====
-- Equipment is paid for once and fitted; a tank is filled as far as the wallet allows.
use deepspace_outpost_dx.Base.{
  ltb, ◌==◌, if◌then◌else◌, Bool-cases, ℕ, ◌+◌, ◌-◌, ◌*◌, ◌≤◌, ◌<◌, ◌≡◌, refl, sym, ◌≢◌, ◌⊎◌, inl,
  inr, Bool, true, false, arith,
}
use deepspace_outpost_dx.Station.{
  fuel_price_per_tenth, Fuel, StationStatus, ok, not_enough_credits, bad_commodity, already_owned,
  Wallet,
}
use deepspace_outpost_dx.Station.Fit.{
  equip_price, already_has, Outfit, fit, equip_player, refuel_player,
}

-- Refuelling never overfills the tank or overdraws the wallet; what is spent is the price of what
-- is pumped. When it succeeds the tank is full, or less than the price of one more tenth is left.
pub refuel_player-fair :
    (docked : Bool) (wallet : Wallet) (fuel : Fuel)
    → fuel.tenths ≤ fuel.most
    → let (status, left, filled) = refuel_player docked wallet fuel in
      (filled.tenths ≤ fuel.most)
      × (filled.most ≡ fuel.most)
      × (left + fuel_price_per_tenth * filled.tenths ≡ wallet + fuel_price_per_tenth * fuel.tenths)
      × (status ≡ ok → (filled.tenths ≡ fuel.most) ⊎ (left < fuel_price_per_tenth))
unfolding refuel_player
refuel_player-fair docked wallet fuel h =
    (ground (arith, h), ground arith, ground (arith, h), λ e. ground (arith, h, e))

-- What a purchase of equipment comes to.
data Fitted (item : ℕ) (o : Outfit) : StationStatus × ℕ × Outfit → Type 0 where
  refused_fit : (status : StationStatus) → status ≢ ok → Fitted item o (status, o.wallet, o)
  fitted :
      equip_price item ≢ 0
      → already_has o.equipment item ≡ false
      → equip_price item ≤ o.wallet
      → Fitted item o (
        ok,
        o.wallet - equip_price item,
        fit item (record o { wallet = o.wallet - equip_price item }),
      )

equip_player-Fitted : (item : ℕ) (o : Outfit) → Fitted item o (equip_player item o)
unfolding equip_player
equip_player-Fitted item o = elim (Bool-cases (equip_price item == 0)) [
  | inl unknown ↦ rw (unknown, equip_player) (refused_fit bad_commodity (λ e. cc))
  | inr known ↦ elim (Bool-cases (already_has o.equipment item)) [
    | inl owned ↦ rw (known, owned, equip_player) (refused_fit already_owned (λ e. cc))
    | inr missing ↦ elim (Bool-cases (ltb o.wallet (equip_price item))) [
      | inl poor ↦
          rw (known, missing, poor, equip_player) (refused_fit not_enough_credits (λ e. cc))
      | inr rich ↦
          rw (known, missing, rich, equip_player)
            (fitted (ground (arith, known)) missing (ground (arith, rich)))
    ]
  ]
]

fit_wallet : (item : ℕ) (o : Outfit) → (fit item o).wallet ≡ o.wallet
unfolding fit
fit_wallet item o = ground arith

fit_missiles :
    (item : ℕ) (o : Outfit)
    → already_has o.equipment item ≡ false
    → o.equipment.missiles ≤ 4
    → (fit item o).equipment.missiles ≤ 4
unfolding fit already_has
fit_missiles item o h m = ground (arith, h)

fit_has :
    (item : ℕ) (o : Outfit)
    → equip_price item ≢ 0
    → item ≢ 1
    → already_has (fit item o).equipment item ≡ true
unfolding fit already_has equip_price
fit_has item o h m = ground (arith, h, m)

fit_capacity :
    (item : ℕ) (o : Outfit)
    → (fit item o).hold.capacity ≡ o.hold.capacity + (if item == 2 then 15 else 0)
unfolding fit
fit_capacity item o = ground arith

fit_more :
    (item : ℕ) (o : Outfit)
    → (fit item o).equipment.missiles ≡ o.equipment.missiles + (if item == 1 then 1 else 0)
unfolding fit
fit_more item o = ground arith

fit_units : (item : ℕ) (o : Outfit) → (fit item o).hold.units ≡ o.hold.units
unfolding fit
fit_units item o = ground arith

-- What fitting an item does to the other flags.
fit_others :
    (item j : ℕ) (o : Outfit)
    → j ≢ item
    → already_has (fit item o).equipment j ≡ already_has o.equipment j
unfolding fit already_has
fit_others item j o h = ground (arith, h)

-- What a purchase of equipment promises.
pub record IsFair (item : ℕ) (o : Outfit) (r : StationStatus × ℕ × Outfit) : Type 0 where
  pub told : r.1 ≡ r.2.wallet
  pub missiles : o.equipment.missiles ≤ 4 → r.2.equipment.missiles ≤ 4
  pub paid : r.0 ≡ ok → r.2.wallet + equip_price item ≡ o.wallet
  pub new : r.0 ≡ ok → already_has o.equipment item ≡ false
  pub has : r.0 ≡ ok → item ≢ 1 → already_has r.2.equipment item ≡ true
  pub one_missile :
      r.0 ≡ ok → r.2.equipment.missiles ≡ o.equipment.missiles + (if item == 1 then 1 else 0)
  pub bay : r.0 ≡ ok → r.2.hold.capacity ≡ o.hold.capacity + (if item == 2 then 15 else 0)
  pub units : r.2.hold.units ≡ o.hold.units
  pub others : (j : ℕ) → j ≢ item → already_has r.2.equipment j ≡ already_has o.equipment j
  pub kept : r.0 ≢ ok → r.2 ≡ o

Fitted-IsFair :
    (item : ℕ) (o : Outfit) (r : StationStatus × ℕ × Outfit) → Fitted item o r → IsFair item o r
Fitted-IsFair item o r (refused_fit status bad) = record {
  told = refl;
  missiles = λ h. h;
  paid = λ e. absurd (bad e);
  new = λ e. absurd (bad e);
  has = λ e. absurd (bad e);
  one_missile = λ e. absurd (bad e);
  bay = λ e. absurd (bad e);
  units = refl;
  others = λ j h. refl;
  kept = λ e. refl;
}
Fitted-IsFair item o r (fitted known missing rich) =
    let paid : Outfit = record o { wallet = o.wallet - equip_price item } in
    record {
      told = sym (fit_wallet item paid);
      missiles = λ h. fit_missiles item paid missing h;
      paid = λ e. omega (arith, fit_wallet item paid, rich);
      new = λ e. missing;
      has = λ e m. fit_has item paid known m;
      one_missile = λ e. fit_more item paid;
      bay = λ e. fit_capacity item paid;
      units = fit_units item paid;
      others = λ j h. fit_others item j paid h;
      kept = λ e. absurd (e refl);
    }

-- A purchase of equipment that succeeds costs the price, is of an item that the player did not
-- have, and leaves the player with it: with one more missile if it is a missile, and with the item
-- if it is another one; a large cargo bay adds 15 to the capacity of the hold. Nothing else is
-- fitted, missiles never exceed four if they did not before, what is in the hold stays, and a
-- purchase that does not succeed changes nothing.
pub equip_player-IsFair : (item : ℕ) (o : Outfit) → IsFair item o (equip_player item o)
equip_player-IsFair item o = Fitted-IsFair item o _ (equip_player-Fitted item o)
