-- ===== src/PageCache/Reuse.antt =====
-- The branch of `page_cache_set` that evicts a page, and what it hands to the client.
use esp32_tinyemu.Prelude.{
  ℕ, ◌+◌, ◌*◌, ◌≤◌, ◌<◌, ◌≡◌, ◌≢◌, ◌==◌, if◌then◌else◌, arith, length, size_mod, Bytes, ap,
}
use esp32_tinyemu.DirectCache.Laws.{get-remove, size-remove}
use esp32_tinyemu.Himem.{himem_read}
use esp32_tinyemu.Himem.Laws.{himem_read_lem}
use esp32_tinyemu.LruCache.NodeList.{Libraries}
use esp32_tinyemu.LruCache.{lru_cache_remove, lru_cache_get_least_recently_used}
use esp32_tinyemu.LruCache.Inv.{nodes, lookup}
use esp32_tinyemu.LruCache.Add.{least_recently_used_lem}
use esp32_tinyemu.LruCache.Evict.{remove-IsValid, lookup-remove, remove-length, remove_flushes}
use esp32_tinyemu.PageCache.{PageCache, on_page_flush, reuse_block}
use esp32_tinyemu.PageCache.Inv.{IsConsistent, IsValid, IsSpare, page_item, block_of}
use esp32_tinyemu.PageCache.Find.{cached_byte}

module _ (lib : Libraries) {S : Type 0} (on_flush : ℕ → Bytes → S → S) where
  -- The page that makes room, if all blocks are taken.
  module _ {pc : PageCache lib} {size blocks : ℕ} (v : IsValid lib size blocks pc) where
    abbrev pub last_item : ℕ
    last_item = lru_cache_get_least_recently_used lib pc.lru_cache

    full : blocks ≤ pc.himem_last_allocated_block → length (nodes lib pc.lru_cache) ≢ 0
    full h = ground (arith, v.allocated, v.blocks_pos)

    -- The number of the page that makes room.
    pub victim : ℕ
    victim = (pc.items (lru_cache_get_least_recently_used lib pc.lru_cache)).page_number

    pub victim_lem :
        blocks ≤ pc.himem_last_allocated_block
        → (page_item lib pc victim ≡ last_item) × (last_item ≢ 0)
    unfolding victim
    victim_lem h = named (least_recently_used_lem lib v.lru_valid (full h))
      where
        named :
            (k : ℕ) × (page_item lib pc k ≡ lru_cache_get_least_recently_used lib pc.lru_cache)
              × (lru_cache_get_least_recently_used lib pc.lru_cache ≢ 0)
            → (page_item lib pc
                  (pc.items (lru_cache_get_least_recently_used lib pc.lru_cache)).page_number
                ≡ lru_cache_get_least_recently_used lib pc.lru_cache)
              × (lru_cache_get_least_recently_used lib pc.lru_cache ≢ 0)
        named (k, e, ne) = ground (arith, e, ne, v.registered k)

  module _ {pc : PageCache lib} {size blocks : ℕ} (n : ℕ) (s : S) (v : IsValid lib size blocks pc)
      (full : blocks ≤ pc.himem_last_allocated_block) where
    evicted :
        (j : ℕ)
        → lookup lib
            (lru_cache_remove lib
              (on_page_flush lib on_flush pc)
              pc.lru_cache
              (victim v)
              (pc.flush_buffer, s)).0
            j
          ≡ (if victim v == j then 0 else page_item lib pc j)
    evicted j =
        lookup-remove lib (on_page_flush lib on_flush pc) (victim v) j (pc.flush_buffer, s)
          v.lru_valid

    pub reuse-IsConsistent :
        page_item lib pc n ≡ 0 → IsConsistent lib size blocks 1 (reuse_block lib on_flush pc n s).1
    unfolding reuse_block victim
    reuse-IsConsistent absent = record {
      lru_valid =
          remove-IsValid lib (on_page_flush lib on_flush pc) (victim v) (pc.flush_buffer, s)
            v.lru_valid;
      himem_valid = v.himem_valid;
      page_size = v.page_size;
      maximum_blocks = v.maximum_blocks;
      blocks_pos = v.blocks_pos;
      lines = ground (arith, v.lines, size-remove pc.direct_cache (victim v));
      next_pos = v.next_pos;
      allocated = ground (
        arith,
        v.allocated,
        victim_lem v full,
        remove-length lib (on_page_flush lib on_flush pc) (victim v) (pc.flush_buffer, s)
            v.lru_valid,
      );
      allocated-le = v.allocated-le;
      coherent = λ k ne. ground (
        arith,
        ne,
        v.lines,
        get-remove pc.direct_cache (victim v) k,
        evicted k,
        v.coherent k,
        victim_lem v full,
      );
      registered = λ k ne.
          ground (arith, ne, evicted k, v.registered k, v.registered (victim v), victim_lem v full);
      apart = λ j k nj nk e. ground (
        arith,
        nj,
        nk,
        e,
        evicted j,
        evicted k,
        v.apart j k,
        victim_lem v full,
        v.registered j,
        v.registered k,
      );
    }

    pub reuse-IsSpare :
        page_item lib pc n ≡ 0
        → n * size + size ≤ size_mod
        → let (p, pc', _) = reuse_block lib on_flush pc n s in IsSpare lib size pc' p n
    unfolding reuse_block victim
    reuse-IsSpare absent fits = record {
      absent = ground (arith, absent, evicted n);
      not_null = (victim_lem v full).1;
      within = ground (arith, v.registered (victim v), victim_lem v full);
      number = ground arith;
      block = ground (arith, v.registered (victim v), victim_lem v full);
      fits = fits;
      free = λ k ne. ground (
        arith,
        ne,
        evicted k,
        v.apart k (victim v),
        victim_lem v full,
        v.registered k,
        v.registered (victim v),
      );
    }

    -- Exactly the victim is dropped, and no other cached page changes.
    pub reuse_pages :
        (j off : ℕ)
        → let (p, pc', _) = reuse_block lib on_flush pc n s in
          (page_item lib pc' j ≡ (if victim v == j then 0 else page_item lib pc j))
          × (victim v ≢ j
              → page_item lib pc j ≢ 0
              → cached_byte lib pc' size j off ≡ cached_byte lib pc size j off)
    unfolding reuse_block victim
    reuse_pages j off = (
      evicted j,
      λ nv ne.
          ground
            (arith, nv, ne, evicted j, v.registered j, v.registered (victim v), victim_lem v full),
    )

    -- The client gets the victim's number and bytes.
    pub reuse_flushes :
        (buf : Bytes) × ((reuse_block lib on_flush pc n s).2 ≡ on_flush (victim v) buf s)
        × ((off : ℕ) → off < size → buf off ≡ cached_byte lib pc size (victim v) off)
    unfolding reuse_block victim on_page_flush
    reuse_flushes = (
      (himem_read pc.himem (block_of lib pc (victim v)) pc.flush_buffer pc.page_size).1,
      ap (λ (x : Bytes × S). x.1)
          (remove_flushes lib (on_page_flush lib on_flush pc) (victim v) (pc.flush_buffer, s)
            v.lru_valid (ground (arith, victim_lem v full))),
      λ off lt. ground (
        arith,
        v.page_size,
        v.registered (victim v),
        victim_lem v full,
        v.allocated-le,
        himem_read_lem (block_of lib pc (victim v)) pc.flush_buffer off v.himem_valid,
      ),
    )
