-- ===== src/Messages/Tests.antt =====
-- Messages at concrete values.
use deepspace_outpost_dx.Base.{◌≡◌, refl, some, [], ◌∷◌, arith}
use deepspace_outpost_dx.Base.Int.{negsuc, to_bits}
use deepspace_outpost_dx.Wire.{write_u8, write_u16, write_u32, write_bytes}
use deepspace_outpost_dx.Messages.{Value, write_field, encode, decode}
use deepspace_outpost_dx.Messages.RoundTrip.{decode-encode}
use deepspace_outpost_dx.Messages.Defs.Player.{player_info}

abbrev someone : Value player_info.fields
someone = (3, (12, (0x41 ∷ 0x6C ∷ [], (negsuc 4, tt))))

decode-encode_example : decode player_info.fields (encode player_info.fields someone) ≡ some someone
decode-encode_example = decode-encode player_info.fields someone (
  omega arith,
  (
    omega arith,
    ((omega arith, (omega arith, (omega arith, tt))), ((omega arith, omega arith), tt)),
  ),
)

someone_bytes :
    encode player_info.fields someone
    ≡ 3 ∷ 0 ∷ 0 ∷ 0 ∷ 12 ∷ 0 ∷ 0 ∷ 0 ∷ 2 ∷ 0 ∷ 0x41 ∷ 0x6C ∷ 0xFB ∷ 0xFF ∷ 0xFF ∷ 0xFF ∷ []
someone_bytes = unfold encode write_field write_u8 write_u16 write_u32 write_bytes to_bits in refl
