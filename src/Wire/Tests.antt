-- ===== src/Wire/Tests.antt =====
-- The byte readers and writers on small buffers.
use deepspace_outpost_dx.Base.{ℕ, ◌+◌, ◌*◌, ◌^◌, ◌≡◌, refl, true, List, [], ◌∷◌}
use deepspace_outpost_dx.Wire.{
  write_u8, write_u16, write_u32, write_u64, write_bytes, Reader, reader, open_reader, read_u32,
}

abbrev fields : List ℕ
fields = write_bytes (9 ∷ 8 ∷ []) (write_u64 1000 (write_u32 70000 (write_u16 513 (write_u8 7 []))))

abbrev short : Reader
short = open_reader (1 ∷ 2 ∷ 3 ∷ [])

read_u32_short : read_u32 short ≡ (3 * 2 ^ 16 + 2 * 2 ^ 8 + 1, reader [] true)
unfolding read_u32
read_u32_short = refl
