-- ===== src/Game/Tests.antt =====
-- The market of a station.
use deepspace_outpost_dx.Base.{get_or, ◌≡◌, refl}
use deepspace_outpost_dx.Base.Int.{pos, ◌+ℤ◌, ◌-ℤ◌, to_bits}
use deepspace_outpost_dx.Game.Market.{
  and_bits, product, low_byte, market_entry, no_entry, generate_market,
}

food_price :
    get_or (generate_market (pos 5) (pos 51966)) 0 no_entry ≡ record { price = 36; quantity = 16 }
unfolding generate_market market_entry and_bits product to_bits low_byte ◌+ℤ◌ ◌-ℤ◌
food_price = refl
