-- ===== src/Game/Market.antt =====
-- GameLogic/Economy.h: the market of a station.
use deepspace_outpost_dx.Base.{
  ltb, if◌then◌else◌, length, get_or, set, All, ℕ, zero, suc, ◌+◌, ◌-◌, ◌*◌, ◌/◌, ◌%◌, ◌≤◌, ◌≡◌,
  refl, List, [], ◌∷◌, map, arith,
}
use deepspace_outpost_dx.Base.Int.{ℤ, pos, negsuc, ◌+ℤ◌, ◌-ℤ◌, to_bits}

pub record Commodity : Type 0 where
  pub base_price : ℤ
  pub eco_adjust : ℤ
  pub base_quantity : ℤ
  pub mask : ℕ

abbrev pub commodity : ℤ → ℤ → ℤ → ℕ → Commodity
commodity p e q m = record { base_price = p; eco_adjust = e; base_quantity = q; mask = m }

abbrev pub commodities : List Commodity
commodities =
    commodity (pos 19) (negsuc 1) (pos 6) 0x01
    ∷ commodity (pos 20) (negsuc 0) (pos 10) 0x03
    ∷ commodity (pos 65) (negsuc 2) (pos 2) 0x07
    ∷ commodity (pos 40) (negsuc 4) (pos 226) 0x1F
    ∷ commodity (pos 83) (negsuc 4) (pos 251) 0x0F
    ∷ commodity (pos 196) (pos 8) (pos 54) 0x03
    ∷ commodity (pos 235) (pos 29) (pos 8) 0x78
    ∷ commodity (pos 154) (pos 14) (pos 56) 0x03
    ∷ commodity (pos 117) (pos 6) (pos 40) 0x07
    ∷ commodity (pos 78) (pos 1) (pos 17) 0x1F
    ∷ commodity (pos 124) (pos 13) (pos 29) 0x07
    ∷ commodity (pos 176) (negsuc 8) (pos 220) 0x3F
    ∷ commodity (pos 32) (negsuc 0) (pos 53) 0x03
    ∷ commodity (pos 97) (negsuc 0) (pos 66) 0x07
    ∷ commodity (pos 171) (negsuc 1) (pos 55) 0x1F
    ∷ commodity (pos 45) (negsuc 0) (pos 250) 0x0F
    ∷ commodity (pos 53) (pos 15) (pos 192) 0x07
    ∷ []

abbrev pub commodity_count : ℕ
commodity_count = 17

abbrev pub alien_items_index : ℕ
alien_items_index = 16

pub record MarketEntry : Type 0 where
  pub price : ℕ
  pub quantity : ℕ

-- `a & b` on the lowest `n` bits.
unfoldable pub and_bits : ℕ → ℕ → ℕ → ℕ
and_bits zero a b = 0
and_bits (suc n) a b = (a % 2) * (b % 2) + 2 * and_bits n (a / 2) (b / 2)

unfoldable pub product : ℤ → ℤ → ℤ
product (pos a) (pos b) = pos (a * b)
product (negsuc a) (pos b) = pos 0 -ℤ pos ((a + 1) * b)
product (pos a) (negsuc b) = pos 0 -ℤ pos (a * (b + 1))
product (negsuc a) (negsuc b) = pos ((a + 1) * (b + 1))

-- `& 255` of an integer of either sign.
unfoldable pub low_byte : ℤ → ℕ
low_byte (pos n) = n % 256
low_byte (negsuc n) = 255 - n % 256

-- The masks of the commodities have eight bits.
unfoldable pub market_entry : ℤ → ℤ → Commodity → MarketEntry
market_entry economy seed c =
    let masked = pos (and_bits 8 (to_bits 32 seed) c.mask) in
    let drift = product economy c.eco_adjust in
    let price = low_byte ((c.base_price +ℤ masked) +ℤ drift) in
    let quant = low_byte ((c.base_quantity +ℤ masked) -ℤ drift) in
    let floored = if ltb 127 quant then 0 else quant in
    record { price = price * 4; quantity = floored % 64 }

abbrev pub sold_out : MarketEntry → MarketEntry
sold_out e = record e { quantity = 0 }

abbrev pub no_entry : MarketEntry
no_entry = record { price = 0; quantity = 0 }

unfoldable pub generate_market : ℤ → ℤ → List MarketEntry
generate_market economy seed =
    let out = map (market_entry economy seed) commodities in
    set out alien_items_index (sold_out (get_or out alien_items_index no_entry))

-- An entry as the game shows it: a price in quarters below 256, and at most 63 units.
abbrev pub IsEntry : MarketEntry → Type 0
IsEntry e = (e.price % 4 ≡ 0) × (e.price ≤ 4 * 255) × (e.quantity ≤ 63)

low_byte-le : (a : ℤ) → low_byte a ≤ 255
unfolding low_byte
low_byte-le (pos n) = omega arith
low_byte-le (negsuc n) = omega arith

entry_lem : (economy seed : ℤ) (c : Commodity) → IsEntry (market_entry economy seed c)
unfolding market_entry
entry_lem economy seed c = ground (
  arith,
  low_byte-le
      ((c.base_price +ℤ pos (and_bits 8 (to_bits 32 seed) c.mask)) +ℤ product economy c.eco_adjust),
)

entries :
    (economy seed : ℤ) (cs : List Commodity) → All IsEntry (map (market_entry economy seed) cs)
entries economy seed [] = tt
entries economy seed (c ∷ cs) = (entry_lem economy seed c, entries economy seed cs)

All-set_sold_out :
    (es : List MarketEntry) (i : ℕ) (e : MarketEntry)
    → All IsEntry es
    → IsEntry e
    → All IsEntry (set es i e)
All-set_sold_out [] i e h g = tt
All-set_sold_out (x ∷ xs) zero e h g = (g, h.1)
All-set_sold_out (x ∷ xs) (suc i) e h g = (h.0, All-set_sold_out xs i e h.1 g)

-- For every economy and seed the market has an entry for each of the 17 commodities, each with a
-- price that is four times a number below 256 and a quantity of at most 63, and no alien items.
pub generate_market-IsEntry :
    (economy seed : ℤ)
    → (length (generate_market economy seed) ≡ commodity_count)
      × All IsEntry (generate_market economy seed)
      × (get_or (generate_market economy seed) alien_items_index no_entry).quantity ≡ 0
unfolding generate_market
generate_market-IsEntry economy seed =
    let alien = entry_lem economy seed (commodity (pos 53) (pos 15) (pos 192) 0x07) in
    (
      refl,
      All-set_sold_out (map (market_entry economy seed) commodities) alien_items_index _
          (entries economy seed commodities) (alien.0, alien.1, omega arith),
      refl,
    )
