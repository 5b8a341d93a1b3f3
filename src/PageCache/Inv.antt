-- ===== src/PageCache/Inv.antt =====
-- The invariant of `struct _page_cache_t` and its view as pages of bytes.
use esp32_tinyemu.Prelude.{ℕ, ◌+◌, ◌*◌, ◌≤◌, ◌<◌, ◌≡◌, ◌≢◌, length, size_mod}
use esp32_tinyemu.DirectCache.{direct_cache_get}
use esp32_tinyemu.Himem.Laws
use esp32_tinyemu.Himem.Laws.{block_byte}
use esp32_tinyemu.LruCache.NodeList.{Libraries}
use esp32_tinyemu.LruCache.Inv.{nodes, lookup}
use esp32_tinyemu.LruCache.Inv
use esp32_tinyemu.PageCache.{PageCache}

module _ (lib : Libraries) where
  -- The item of a page, NULL for a page that is not cached.
  abbrev pub page_item : PageCache lib → ℕ → ℕ
  page_item pc k = lookup lib pc.lru_cache k

  -- The block of a cached page.
  abbrev pub block_of : PageCache lib → ℕ → ℕ
  block_of pc k = (pc.items (page_item pc k)).block_id

  -- A cached page is registered under its own number in a block of its own, and its bytes lie
  -- below the end of the address space.
  -- Of the allocated blocks `spare` ones hold no page.
  pub record IsConsistent (size blocks spare : ℕ) (pc : PageCache lib) : Type 0 where
    pub lru_valid : Inv.IsValid lib pc.lru_cache
    pub himem_valid : Laws.IsValid pc.himem size blocks
    pub page_size : pc.page_size ≡ size
    pub maximum_blocks : pc.himem_maximum_blocks ≡ blocks
    pub blocks_pos : 0 < blocks
    pub lines : pc.direct_cache.cache_size ≡ 2048
    pub next_pos : 0 < pc.next_item
    pub allocated : length (nodes lib pc.lru_cache) + spare ≡ pc.himem_last_allocated_block
    pub allocated-le : pc.himem_last_allocated_block ≤ blocks
    pub coherent :
        (k : ℕ)
        → direct_cache_get pc.direct_cache k ≢ 0
        → direct_cache_get pc.direct_cache k ≡ page_item pc k
    pub registered :
        (k : ℕ)
        → page_item pc k ≢ 0
        → ((pc.items (page_item pc k)).page_number ≡ k)
          × (block_of pc k < pc.himem_last_allocated_block)
          × (page_item pc k < pc.next_item)
          × (k * size + size ≤ size_mod)
    pub apart :
        (j k : ℕ) → page_item pc j ≢ 0 → page_item pc k ≢ 0 → block_of pc j ≡ block_of pc k → j ≡ k

  -- Between two calls every allocated block holds a page.
  abbrev pub IsValid : ℕ → ℕ → PageCache lib → Type 0
  IsValid size blocks = IsConsistent size blocks 0

  -- The item `p` is set up for the page `n`, which is not cached, and no page uses its block.
  pub record IsSpare (size : ℕ) (pc : PageCache lib) (p n : ℕ) : Type 0 where
    pub absent : page_item pc n ≡ 0
    pub not_null : p ≢ 0
    pub within : p < pc.next_item
    pub number : (pc.items p).page_number ≡ n
    pub block : (pc.items p).block_id < pc.himem_last_allocated_block
    pub fits : n * size + size ≤ size_mod
    pub free : (k : ℕ) → page_item pc k ≢ 0 → block_of pc k ≢ (pc.items p).block_id
