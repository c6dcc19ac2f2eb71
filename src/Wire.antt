-- ===== src/Wire.antt =====
-- NeuronCore/DataWriter.h and NeuronCore/DataReader.h: little-endian fields in a byte buffer.
-- A buffer is the list of its bytes. `x & 0xFF` and `x >> 8` are `x % 256` and `x / 2 ^ 8`; the `|`
-- of DataReader joins a low half and a shifted high half, which share no bit, and is written `+`.
pub mod RoundTrip
pub mod Bounds
pub mod Sound
mod Tests
use deepspace_outpost_dx.Base.{
  length, ℕ, zero, suc, ◌+◌, ◌*◌, ◌/◌, ◌%◌, ◌^◌, Bool, true, false, not, List, [], ◌∷◌, ◌++◌,
}

unfoldable pub write_u8 : ℕ → List ℕ → List ℕ
write_u8 v w = w ++ v ∷ []

unfoldable pub write_u16 : ℕ → List ℕ → List ℕ
unfolding write_u8
write_u16 v w = write_u8 (v / 2 ^ 8 % 256) (write_u8 (v % 256) w)

unfoldable pub write_u32 : ℕ → List ℕ → List ℕ
unfolding write_u16
write_u32 v w = write_u16 (v / 2 ^ 16 % 2 ^ 16) (write_u16 (v % 2 ^ 16) w)

unfoldable pub write_u64 : ℕ → List ℕ → List ℕ
unfolding write_u32
write_u64 v w = write_u32 (v / 2 ^ 32 % 2 ^ 32) (write_u32 (v % 2 ^ 32) w)

-- The loop `for (uint8_t b : payload) w.WriteU8(b)` of the packet writers.
unfoldable pub write_bytes : List ℕ → List ℕ → List ℕ
unfolding write_u8
write_bytes [] w = w
write_bytes (b ∷ bs) w = write_bytes bs (write_u8 b w)

-- `rest` is the part of the buffer from the cursor on, and `failed` the sticky failure flag.
pub record Reader : Type 0 where
  pub rest : List ℕ
  pub failed : Bool

abbrev pub reader : List ℕ → Bool → Reader
reader bs f = record { rest = bs; failed = f }

-- `DataReader(_data, _size)`.
abbrev pub open_reader : List ℕ → Reader
open_reader bs = reader bs false

abbrev pub Read : Type 0 → Type 0
Read A = Reader → A × Reader

infixl 5 ◌>>=◌ ◌>>◌
abbrev pub ◌>>=◌ : {A B : Type 0} → Read A → (A → Read B) → Read B
◌>>=◌ m f r = let (a, r') = m r in f a r'

abbrev pub ◌>>◌ : {A B : Type 0} → Read A → Read B → Read B
m >> k = m >>= λ _. k

abbrev pub ret : {A : Type 0} → A → Read A
ret a r = (a, r)

-- Past the end a read gives zero and sets the flag.
read_byte : List ℕ → Bool → ℕ × Reader
read_byte [] f = (0, reader [] true)
read_byte (b ∷ bs) f = (b, reader bs f)

unfoldable pub read_u8 : Read ℕ
unfolding read_byte
read_u8 r = read_byte r.rest r.failed

unfoldable pub read_u16 : Read ℕ
unfolding read_u8
read_u16 = do lo ← read_u8; hi ← read_u8; ret (lo + hi * 2 ^ 8)

unfoldable pub read_u32 : Read ℕ
unfolding read_u16
read_u32 = do lo ← read_u16; hi ← read_u16; ret (lo + hi * 2 ^ 16)

unfoldable pub read_u64 : Read ℕ
unfolding read_u32
read_u64 = do lo ← read_u32; hi ← read_u32; ret (lo + hi * 2 ^ 32)

-- The loop `for (i = 0; i < len; ++i) payload[i] = r.ReadU8()`.
unfoldable pub read_bytes : ℕ → Read (List ℕ)
unfolding read_u8
read_bytes zero = ret []
read_bytes (suc n) = do b ← read_u8; bs ← read_bytes n; ret (b ∷ bs)

unfoldable pub ok : Reader → Bool
ok r = not r.failed

unfoldable pub remaining : Reader → ℕ
remaining r = length r.rest
