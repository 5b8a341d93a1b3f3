-- ===== src/PageCache/Find.antt =====
-- A new page cache is valid and empty; the search for a page and `page_cache_get`.
use esp32_tinyemu.Prelude.{
  ℕ, ◌^◌, ◌<◌, ◌≡◌, ◌==◌, if◌then◌else◌, arith, length, Bytes, refl, Bool-cases, inl, inr, not,
}
use esp32_tinyemu.DirectCache.{direct_cache_get}
use esp32_tinyemu.DirectCache.Laws.{get-init, size-init}
use esp32_tinyemu.Himem.Laws.{block_byte, himem_read_lem, init-IsValid as himem-init-IsValid}
use esp32_tinyemu.LruCache.NodeList.{Libraries}
use esp32_tinyemu.LruCache.{CacheItem, lru_cache_init, lru_cache_get}
use esp32_tinyemu.LruCache.Inv.{nodes, lookup, lookup-init, init-IsValid as lru-init-IsValid}
use esp32_tinyemu.LruCache.Access.{get_lem, get-IsValid, get-length}
use esp32_tinyemu.PageCache.{PageCache, PageCacheHeap, page_cache_init, find_page, page_cache_get}
use esp32_tinyemu.PageCache.Inv.{IsValid, page_item, block_of}

module _ (lib : Libraries) where
  -- The byte at `off` of a page that is cached.
  abbrev pub cached_byte : PageCache lib → ℕ → ℕ → ℕ → ℕ
  cached_byte pc size k off = block_byte pc.himem size (block_of lib pc k) off

  pub nodes-init :
      (heap : ℕ → CacheItem) (start : ℕ) → length (nodes lib (lru_cache_init lib heap start)) ≡ 0
  unfolding lru_cache_init
  nodes-init heap start = ground (arith, lib.sequence-new)

  -- A new page cache is valid and holds no page.
  pub init-IsValid :
      (heap : PageCacheHeap) (size blocks : ℕ)
      → 0 < size
      → size < 2 ^ 16
      → 0 < blocks
      → blocks < 2 ^ 16
      → IsValid lib size blocks (page_cache_init lib heap size blocks)
  unfolding page_cache_init
  init-IsValid heap size blocks p q r s = record {
    lru_valid = lru-init-IsValid lib heap.cache_items 1 (omega arith);
    himem_valid = himem-init-IsValid heap.container size blocks p q s;
    page_size = refl;
    maximum_blocks = refl;
    blocks_pos = r;
    lines = size-init heap.lines 2048;
    next_pos = omega arith;
    allocated = ground (arith, nodes-init heap.cache_items 1);
    allocated-le = omega arith;
    coherent = λ k ne. absurd (ne (get-init heap.lines 2048 k (omega arith)));
    registered = λ k ne. absurd (ne (lookup-init lib heap.cache_items 1 k));
    apart = λ j k ne. absurd (ne (lookup-init lib heap.cache_items 1 j));
  }

  -- The search for a page answers its item, and changes no page and nothing else of the invariant.
  pub find_page_lem :
      {pc : PageCache lib} {size blocks : ℕ} (k j : ℕ)
      → IsValid lib size blocks pc
      → let (p, pc') = find_page lib pc k in
        (p ≡ page_item lib pc k)
        × (page_item lib pc' j ≡ page_item lib pc j)
        × (pc'.items ≡ pc.items)
        × (pc'.himem ≡ pc.himem)
        × (pc'.direct_cache ≡ pc.direct_cache)
        × (pc'.himem_last_allocated_block ≡ pc.himem_last_allocated_block)
        × (pc'.page_size ≡ pc.page_size)
        × (pc'.himem_maximum_blocks ≡ pc.himem_maximum_blocks)
        × (pc'.next_item ≡ pc.next_item)
  unfolding find_page
  find_page_lem {pc} k j v =
      ground (arith, v.coherent k, get_lem lib k j v.lru_valid, get_lem lib k k v.lru_valid)

  pub find_page-IsValid :
      {pc : PageCache lib} {size blocks : ℕ} (k : ℕ)
      → IsValid lib size blocks pc
      → IsValid lib size blocks (find_page lib pc k).1
  unfolding find_page
  find_page-IsValid {pc} k v = elim (Bool-cases (direct_cache_get pc.direct_cache k == 0)) [
    | inl e ↦ rw e (record {
      lru_valid = get-IsValid lib k v.lru_valid;
      himem_valid = v.himem_valid;
      page_size = v.page_size;
      maximum_blocks = v.maximum_blocks;
      blocks_pos = v.blocks_pos;
      lines = v.lines;
      next_pos = v.next_pos;
      allocated = ground (arith, v.allocated, get-length lib k v.lru_valid);
      allocated-le = v.allocated-le;
      coherent = λ j ne. ground (arith, ne, v.coherent j, same j);
      registered = λ j ne. ground (arith, ne, v.registered j, same j);
      apart = λ i j ni nj b. ground (arith, ni, nj, b, v.apart i j, same i, same j);
    })
    | inr e ↦ rw e v
  ]
    where
      same : (j : ℕ) → lookup lib (lru_cache_get lib pc.lru_cache k).1 j ≡ lookup lib pc.lru_cache j
      same j = (get_lem lib k j v.lru_valid).1

  -- A read of a page of a valid page cache reports whether the page is cached, fills the buffer with its bytes if it is
  -- and leaves the buffer alone otherwise, and changes no page.
  pub page_cache_get_lem :
      {pc : PageCache lib} {size blocks : ℕ} (k j off : ℕ) (buff : Bytes)
      → IsValid lib size blocks pc
      → off < size
      → let (found, buf, pc') = page_cache_get lib pc k buff in
        (found ≡ not (page_item lib pc k == 0))
        × (buf off ≡ (if page_item lib pc k == 0 then buff off else cached_byte pc size k off))
        × (page_item lib pc' j ≡ page_item lib pc j)
        × (cached_byte pc' size j off ≡ cached_byte pc size j off)
  unfolding page_cache_get
  page_cache_get_lem {pc} {size} {blocks} k j off buff v lt = ground (
    arith,
    find_page_lem k j v,
    v.registered k,
    v.allocated-le,
    v.page_size,
    himem_read_lem (block_of lib pc k) buff off v.himem_valid,
  )

  pub page_cache_get-IsValid :
      {pc : PageCache lib} {size blocks : ℕ} (k : ℕ) (buff : Bytes)
      → IsValid lib size blocks pc
      → IsValid lib size blocks (page_cache_get lib pc k buff).2
  unfolding page_cache_get
  page_cache_get-IsValid {pc} k buff v = elim (Bool-cases ((find_page lib pc k).0 == 0)) [
    | inl e ↦ rw e (find_page-IsValid k v)
    | inr e ↦ rw e (find_page-IsValid k v)
  ]
