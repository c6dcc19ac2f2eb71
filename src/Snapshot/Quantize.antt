-- ===== src/Snapshot/Quantize.antt =====
-- NeuronCore/Quantization.h: fixed-point encodings of the float fields.
-- The floats of the machine are a parameter, with the operations that the code uses.
use deepspace_outpost_dx.Base.{if◌then◌else◌, Bool, arith}
use deepspace_outpost_dx.Base.Int.{ℤ, pos, negsuc, ◌≤ℤ◌, ltb_ℤ}

pub record Floats : Type 1 where
  pub F : Type 0
  pub D : Type 0
  -- The constants 0, 1, -1, UNIT_QUANT_SCALE and SPEED_QUANT_SCALE.
  pub zero : F
  pub one : F
  pub minus_one : F
  pub unit_scale : F
  pub speed_scale : F
  pub less : F → F → Bool
  -- A float as a double, the product of doubles, std::lround, an integer as a float, a quotient.
  pub widen : F → D
  pub times : D → D → D
  pub lround : D → ℤ
  pub of_int : ℤ → F
  pub over : F → F → F

module _ (fl : Floats) where
  open fl use {F, less, widen, times, lround, of_int, over}

  unfoldable pub round_to_long : fl.D → ℤ
  round_to_long v = lround v

  unfoldable pub quantize_unit : F → ℤ
  unfolding round_to_long
  quantize_unit f =
      let c = if less f fl.minus_one then fl.minus_one else if less fl.one f then fl.one else f in
      let q = round_to_long (times (widen c) (widen fl.unit_scale)) in
      let q' = if ltb_ℤ (pos 32767) q then pos 32767 else q in
      if ltb_ℤ q' (negsuc 32766) then negsuc 32766 else q'

  unfoldable pub dequantize_unit : ℤ → F
  dequantize_unit q = over (of_int q) fl.unit_scale

  unfoldable pub quantize_speed : F → ℤ
  unfolding round_to_long
  quantize_speed s =
      let c = if less s fl.zero then fl.zero else s in
      let q = round_to_long (times (widen c) (widen fl.speed_scale)) in
      let q' = if ltb_ℤ q (pos 0) then pos 0 else q in
      if ltb_ℤ (pos 65535) q' then pos 65535 else q'

  unfoldable pub dequantize_speed : ℤ → F
  dequantize_speed q = over (of_int q) fl.speed_scale

  -- Whatever the float operations return, an encoded component lies in the symmetric 16-bit
  -- range, and an encoded speed in the unsigned one.
  pub quantize_range :
      (f : F)
      → (negsuc 32766 ≤ℤ quantize_unit f)
        × (quantize_unit f ≤ℤ pos 32767)
        × (pos 0 ≤ℤ quantize_speed f)
        × (quantize_speed f ≤ℤ pos 65535)
  unfolding quantize_unit quantize_speed
  quantize_range f = ground arith
