-- ===== src/Exec/Rounds.antt =====
-- What a round of the interpreter's loop keeps: the invariant of the core and the map, and a block
-- that gets shorter. The bound needs that the last page of the physical addresses is not mapped, since
-- `code_ptr` passes from there to 0.
pub mod Fetches
pub mod Turns
pub mod Ends
use esp32_tinyemu.Prelude.{
  ℕ, ◌+◌, ◌-◌, ◌*◌, ◌/◌, ◌%◌, ◌^◌, ◌≤◌, ◌<◌, ◌≡◌, Bool, true, false, Option, none, arith, size_add,
  size_sub,
}
use esp32_tinyemu.LruCache.NodeList.{Libraries}
use esp32_tinyemu.Iomem.{PhysMemoryMap, get_phys_mem_range}
use esp32_tinyemu.Exec.Loop.{Block, get_pc, no_block, page_block}

-- The bytes of a block that are left.
abbrev pub room : Block → ℕ
room b = b.code_end - b.code_ptr

pub record GoodBlock (b : Block) : Type 0 where
  pub even : get_pc b % 2 ≡ 0
  pub near : room b ≤ 4094
  pub low : b.code_ptr < 2 ^ 32

-- The first address of the last page.
abbrev pub last_page : ℕ
last_page = 0xfffff000

pub no_block-GoodBlock : (pc : ℕ) → pc % 2 ≡ 0 → GoodBlock (no_block pc)
no_block-GoodBlock pc e = record { even = omega arith; near = omega arith; low = omega arith }

pub page_block-GoodBlock :
    (addr paddr : ℕ)
    → addr % 2 ≡ 0
    → addr < 2 ^ 32
    → paddr < 2 ^ 32
    → GoodBlock (page_block addr paddr)
page_block-GoodBlock addr paddr e la lp = record {
  even = omega arith;
  near = omega arith;
  low = lp;
}

pub advanced-GoodBlock :
    (b : Block) (len : ℕ)
    → b.code_ptr < last_page
    → len ≤ 4
    → len % 2 ≡ 0
    → GoodBlock b
    → GoodBlock (record b { code_ptr = size_add b.code_ptr len })
advanced-GoodBlock b len lt le ev g = record {
  even = omega (arith, g.even);
  near = omega (arith, g.near);
  low = omega arith;
}

-- The last page of the physical addresses has no memory and no device.
abbrev pub TopFree : {lib : Libraries} {W : Type 0} → PhysMemoryMap lib W → Type 0
TopFree map0 = (addr : ℕ) → last_page ≤ addr → get_phys_mem_range map0 addr ≡ none
