-- ===== src/Himem/Laws.antt =====
-- What a client of himem_allocator.c may rely on: blocks keep what is written to them and do not
-- overlap.
use esp32_tinyemu.Prelude.{
  ℕ, ◌+◌, ◌*◌, ◌^◌, ◌<◌, ◌≡◌, arith, ◌==◌, if◌then◌else◌, Bytes, size_mod, blocks_apart,
}
use esp32_tinyemu.Himem.{Himem, himem_allocator_init, himem_read, himem_write, block_offset}

-- The container of `blocks` blocks fits the 32-bit offsets, and the handle agrees with it.
pub record IsValid (h : Himem) (size blocks : ℕ) : Type 0 where
  pub size_pos : 0 < size
  pub size_u16 : size < 2 ^ 16
  pub blocks_u16 : blocks < 2 ^ 16
  pub block_size : h.allocator.block_size ≡ size
  pub maximum_blocks : h.allocator.maximum_blocks ≡ blocks

-- The byte at `off` of block `b`.
abbrev pub block_byte : Himem → ℕ → ℕ → ℕ → ℕ
block_byte h size b off = h.allocator.himem_container (b * size + off)

pub init-IsValid :
    (heap : Bytes) (size blocks : ℕ)
    → 0 < size
    → size < 2 ^ 16
    → blocks < 2 ^ 16
    → IsValid (himem_allocator_init heap size blocks) size blocks
unfolding himem_allocator_init
init-IsValid heap size blocks p q r = ground arith

offset_lt : (b blocks size : ℕ) → b < blocks → blocks < 2 ^ 16 → size < 2 ^ 16 → b * size < size_mod
offset_lt b blocks size h p q = grind arith

offset_lem :
    {h : Himem} {size blocks : ℕ} (b : ℕ)
    → IsValid h size blocks
    → b < blocks
    → block_offset h.allocator b ≡ b * size
unfolding block_offset
offset_lem {h} {size} {blocks} b v lt =
    ground (arith, offset_lt b blocks size lt v.blocks_u16 v.size_u16)

-- A read of a whole block in range returns its size and the block's bytes.
pub himem_read_lem :
    {h : Himem} {size blocks : ℕ} (b : ℕ) (buf : Bytes) (off : ℕ)
    → IsValid h size blocks
    → b < blocks
    → off < size
    → ((himem_read h b buf size).0 ≡ size)
      × ((himem_read h b buf size).1 off ≡ block_byte h size b off)
unfolding himem_read
himem_read_lem {h} {size} {blocks} b buf off v lt lo =
    ground (arith, offset_lt b blocks size lt v.blocks_u16 v.size_u16)

-- A write of a whole block in range returns its size, sets exactly that block, and leaves the bytes
-- of every other block as they were.
pub himem_write_lem :
    {h : Himem} {size blocks : ℕ} (b : ℕ) (buf : Bytes) (c off : ℕ)
    → IsValid h size blocks
    → b < blocks
    → c < blocks
    → off < size
    → ((himem_write h b buf size).0 ≡ size)
      × (block_byte (himem_write h b buf size).1 size c off
          ≡ (if b == c then buf off else block_byte h size c off))
unfolding himem_write
himem_write_lem {h} {size} {blocks} b buf c off v lb lc lo =
    ground (arith, offset_lt b blocks size lb v.blocks_u16 v.size_u16, blocks_apart b c size)

pub himem_write-IsValid :
    {h : Himem} {size blocks : ℕ} (b : ℕ) (buf : Bytes) (len : ℕ)
    → IsValid h size blocks
    → IsValid (himem_write h b buf len).1 size blocks
unfolding himem_write
himem_write-IsValid b buf len v = ground arith
