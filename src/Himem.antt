-- ===== src/Himem.antt =====
-- lib/HimemAllocator/himem_allocator.c over himem_access/emulated_himem.c: blocks of one size in
-- one container, addressed by number. `himem` is the table `emulated_himem`, as on every target but
-- the first ESP32.
pub mod Laws
use esp32_tinyemu.Prelude.{
  ℕ, ◌+◌, ◌*◌, ◌/◌, ◌%◌, ◌^◌, ltb, leb, if◌then◌else◌, u16, size_mul, Bytes, memcpy,
}

-- `struct _himem_allocator_t` of emulated_himem.c
pub record Allocator : Type 0 where
  pub himem_container : Bytes
  pub block_size : ℕ
  pub maximum_blocks : ℕ

-- `struct _himem_t`
pub record Himem : Type 0 where
  pub block_size : ℕ
  pub blocks : ℕ
  pub allocator : Allocator

abbrev pub maximum_memory : ℕ
maximum_memory = 1024 * 1024 * 4

-- `uint16_t emulated_himem_get_maximum_blocks`
unfoldable pub emulated_himem_get_maximum_blocks : ℕ → ℕ
emulated_himem_get_maximum_blocks block_size = u16 (maximum_memory / block_size)

-- `heap` is what malloc left in the container.
unfoldable pub emulated_himem_init : Bytes → ℕ → ℕ → Allocator
emulated_himem_init heap block_size maximum_blocks = record {
  himem_container = heap;
  block_size = block_size;
  maximum_blocks = maximum_blocks;
}

-- `uint32_t offset`
unfoldable pub block_offset : Allocator → ℕ → ℕ
block_offset a block_id = size_mul block_id a.block_size

-- The number of bytes read, and the buffer.
unfoldable pub emulated_himem_read : Allocator → ℕ → Bytes → ℕ → ℕ × Bytes
unfolding memcpy block_offset
emulated_himem_read a block_id buf len =
    if leb a.maximum_blocks block_id
    then (0, buf)
    else if ltb a.block_size len
    then (0, buf)
    else (len, memcpy buf 0 a.himem_container (block_offset a block_id) len)

-- The number of bytes written, and the allocator.
unfoldable pub emulated_himem_write : Allocator → ℕ → Bytes → ℕ → ℕ × Allocator
unfolding memcpy block_offset
emulated_himem_write a block_id buf len =
    if leb a.maximum_blocks block_id then (0, a) else if ltb a.block_size len then (0, a) else (
      len,
      record a { himem_container = memcpy a.himem_container (block_offset a block_id) buf 0 len },
    )

-- Both sizes pass through `uint16_t` parameters.
unfoldable pub himem_allocator_init : Bytes → ℕ → ℕ → Himem
unfolding emulated_himem_init
himem_allocator_init heap block_size blocks = record {
  block_size = u16 block_size;
  blocks = u16 blocks;
  allocator = emulated_himem_init heap (u16 block_size) (u16 blocks);
}

-- `block_id` is a `uint16_t` parameter.
unfoldable pub himem_read : Himem → ℕ → Bytes → ℕ → ℕ × Bytes
unfolding emulated_himem_read
himem_read h block_id buf len = emulated_himem_read h.allocator (u16 block_id) buf len

unfoldable pub himem_write : Himem → ℕ → Bytes → ℕ → ℕ × Himem
unfolding emulated_himem_write
himem_write h block_id buf len =
    let (n, a) = emulated_himem_write h.allocator (u16 block_id) buf len in
    (n, record h { allocator = a })
