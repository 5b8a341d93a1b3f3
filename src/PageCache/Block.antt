-- ===== src/PageCache/Block.antt =====
-- The branches of `page_cache_set` that find a block for a page that is not cached, and the
-- insertion of the page.
use esp32_tinyemu.Prelude.{
  ℕ, ◌+◌, ◌*◌, ◌≤◌, ◌<◌, ◌≡◌, ◌≢◌, ◌==◌, if◌then◌else◌, arith, size_mod, Bytes, refl, inl, inr, ◌⊎◌,
  eq-cases,
}
use esp32_tinyemu.DirectCache.Laws.{get-set, size-set}
use esp32_tinyemu.Himem.{himem_write}
use esp32_tinyemu.Himem.Laws.{block_byte, himem_write_lem, himem_write-IsValid}
use esp32_tinyemu.LruCache.NodeList.{Libraries}
use esp32_tinyemu.LruCache.{lru_cache_add}
use esp32_tinyemu.LruCache.Inv.{lookup}
use esp32_tinyemu.LruCache.Add.{add-IsValid, lookup-add, add-length}
use esp32_tinyemu.PageCache.{PageCache, allocate_block, insert_page}
use esp32_tinyemu.PageCache.Inv.{IsConsistent, IsValid, IsSpare, page_item, block_of}
use esp32_tinyemu.PageCache.Find.{cached_byte}

module _ (lib : Libraries) where
  pub allocate-IsConsistent :
      {pc : PageCache lib} {size blocks : ℕ} (n : ℕ)
      → IsValid lib size blocks pc
      → pc.himem_last_allocated_block < blocks
      → IsConsistent lib size blocks 1 (allocate_block lib pc n).1
  unfolding allocate_block
  allocate-IsConsistent {pc} {size} {blocks} n v lt = record {
    lru_valid = v.lru_valid;
    himem_valid = v.himem_valid;
    page_size = v.page_size;
    maximum_blocks = v.maximum_blocks;
    blocks_pos = v.blocks_pos;
    lines = v.lines;
    next_pos = ground arith;
    allocated = ground (arith, v.allocated, v.himem_valid.blocks_u16);
    allocated-le = ground (arith, v.himem_valid.blocks_u16);
    coherent = v.coherent;
    registered =
        λ k ne. ground (arith, v.registered k ne, v.allocated-le, v.himem_valid.blocks_u16);
    apart =
        λ j k nj nk e. ground (arith, nj, nk, e, v.apart j k, v.registered j nj, v.registered k nk);
  }

  pub allocate-IsSpare :
      {pc : PageCache lib} {size blocks : ℕ} (n : ℕ)
      → IsValid lib size blocks pc
      → pc.himem_last_allocated_block < blocks
      → page_item lib pc n ≡ 0
      → n * size + size ≤ size_mod
      → let (p, pc') = allocate_block lib pc n in IsSpare lib size pc' p n
  unfolding allocate_block
  allocate-IsSpare {pc} {size} {blocks} n v lt e fits = record {
    absent = e;
    not_null = ground (arith, v.next_pos);
    within = ground arith;
    number = ground arith;
    block = ground (arith, v.himem_valid.blocks_u16);
    fits = fits;
    free = λ k ne. ground (arith, v.registered k ne);
  }

  -- A new block changes no cached page.
  pub allocate_pages :
      {pc : PageCache lib} {size blocks : ℕ} (n j off : ℕ)
      → IsValid lib size blocks pc
      → (page_item lib (allocate_block lib pc n).1 j ≡ page_item lib pc j)
        × (page_item lib pc j ≢ 0
            → cached_byte lib (allocate_block lib pc n).1 size j off
              ≡ cached_byte lib pc size j off)
  unfolding allocate_block
  allocate_pages {pc} n j off v = (refl, λ ne. ground (arith, v.registered j ne))

  pub insert-IsValid :
      {pc : PageCache lib} {size blocks p : ℕ} (n : ℕ) (buff : Bytes)
      → IsConsistent lib size blocks 1 pc
      → IsSpare lib size pc p n
      → IsValid lib size blocks (insert_page lib pc p n buff)
  unfolding insert_page
  insert-IsValid {pc} {size} {blocks} {p} n buff v s = record {
    lru_valid = add-IsValid lib n p v.lru_valid s.absent s.not_null;
    himem_valid = himem_write-IsValid (pc.items p).block_id buff pc.page_size v.himem_valid;
    page_size = v.page_size;
    maximum_blocks = v.maximum_blocks;
    blocks_pos = v.blocks_pos;
    lines = ground (arith, v.lines, size-set pc.direct_cache n p);
    next_pos = v.next_pos;
    allocated = ground (arith, v.allocated, add-length lib n p v.lru_valid);
    allocated-le = v.allocated-le;
    coherent = λ k ne. ground (arith, ne, get-set pc.direct_cache n p k, item k, v.coherent k);
    registered = λ k ne.
        ground (arith, ne, item k, v.registered k, s.within, s.number, s.block, s.fits, s.not_null);
    apart =
        λ j k nj nk e. ground (arith, nj, nk, e, item j, item k, v.apart j k, s.free j, s.free k);
  }
    where
      item :
          (k : ℕ)
          → lookup lib (lru_cache_add lib pc.lru_cache n p) k
            ≡ (if n == k then p else lookup lib pc.lru_cache k)
      item k = lookup-add lib n p k v.lru_valid

  -- The inserted page holds the buffer, and every other cached page what it held.
  pub insert_pages :
      {pc : PageCache lib} {size blocks p : ℕ} (n j off : ℕ) (buff : Bytes)
      → IsConsistent lib size blocks 1 pc
      → IsSpare lib size pc p n
      → off < size
      → (page_item lib (insert_page lib pc p n buff) j ≡ (if n == j then p else page_item lib pc j))
        × ((n ≡ j) ⊎ (page_item lib pc j ≢ 0)
            → cached_byte lib (insert_page lib pc p n buff) size j off
              ≡ (if n == j then buff off else cached_byte lib pc size j off))
  unfolding insert_page
  insert_pages {pc} {size} {blocks} {p} n j off buff v s lt = (item, byte)
    where
      item :
          lookup lib (lru_cache_add lib pc.lru_cache n p) j
          ≡ (if n == j then p else lookup lib pc.lru_cache j)
      item = lookup-add lib n p j v.lru_valid

      byte :
          (n ≡ j) ⊎ (page_item lib pc j ≢ 0)
          → block_byte
              (himem_write pc.himem (pc.items p).block_id buff pc.page_size).1
              size
              (pc.items (lookup lib (lru_cache_add lib pc.lru_cache n p) j)).block_id
              off
            ≡ (if n == j then buff off else cached_byte lib pc size j off)
      byte h = elim (eq-cases n j) [
        | inl e ↦ ground (
          arith,
          e,
          item,
          s.block,
          v.allocated-le,
          v.page_size,
          himem_write_lem (pc.items p).block_id buff (pc.items p).block_id off v.himem_valid,
        )
        | inr ne ↦ ground (
          arith,
          ne,
          h,
          item,
          s.block,
          s.free j,
          v.registered j,
          v.allocated-le,
          v.page_size,
          himem_write_lem (pc.items p).block_id buff (block_of lib pc j) off v.himem_valid,
        )
      ]
