-- ===== src/PageCache.antt =====
-- lib/page_cache/page_cache.c: pages of one size in himem blocks, found by a direct-mapped table and
-- an LRU cache; when all blocks are taken the last page of the list makes room, and its contents go
-- to the client's `on_flush`, which acts on a state `S` of the client.
pub mod Inv
pub mod Find
pub mod Block
pub mod Reuse
pub mod Set
use esp32_tinyemu.Prelude.{ℕ, ◌+◌, Bool, true, false, ◌==◌, if◌then◌else◌, ltb, size_add, Bytes}
use esp32_tinyemu.DirectCache.{
  CacheLine, DirectCache, direct_cache_init, direct_cache_get, direct_cache_set,
  direct_cache_remove,
}
use esp32_tinyemu.Himem.{Himem, himem_allocator_init, himem_read, himem_write}
use esp32_tinyemu.LruCache.NodeList.{Libraries}
use esp32_tinyemu.LruCache.{
  CacheItem, Cache, lru_cache_init, lru_cache_get, lru_cache_get_least_recently_used,
  lru_cache_remove, lru_cache_add,
}

-- `struct page_cache_item_t`
pub record PageCacheItem : Type 0 where
  pub page_number : ℕ
  pub block_id : ℕ

-- `struct _page_cache_t`, the memory of its items, and the next address that malloc gives. The
-- `on_flush` and `flush_context` members are arguments of the operations that call it.
pub record PageCache (lib : Libraries) : Type 0 where
  pub lru_cache : Cache lib
  pub direct_cache : DirectCache
  pub page_size : ℕ
  pub himem_maximum_blocks : ℕ
  pub himem_last_allocated_block : ℕ
  pub himem : Himem
  pub flush_buffer : Bytes
  pub items : ℕ → PageCacheItem
  pub next_item : ℕ

-- What malloc leaves in the memory that a new page cache uses.
pub record PageCacheHeap : Type 0 where
  pub container : Bytes
  pub flush_buffer : Bytes
  pub lines : ℕ → CacheLine
  pub cache_items : ℕ → CacheItem
  pub items : ℕ → PageCacheItem

write_page_item : (ℕ → PageCacheItem) → ℕ → PageCacheItem → ℕ → PageCacheItem
write_page_item f i x j = if i == j then x else f j

module _ (lib : Libraries) where
  unfoldable pub page_cache_init : PageCacheHeap → ℕ → ℕ → PageCache lib
  page_cache_init heap page_size maximum_himem_blocks = record {
    lru_cache = lru_cache_init lib heap.cache_items 1;
    direct_cache = direct_cache_init heap.lines 2048;
    page_size = page_size;
    himem_maximum_blocks = maximum_himem_blocks;
    himem_last_allocated_block = 0;
    himem = himem_allocator_init heap.container page_size maximum_himem_blocks;
    flush_buffer = heap.flush_buffer;
    items = heap.items;
    next_item = 1;
  }

  -- The first lines of `page_cache_get` and `page_cache_set`: the item of a page, or NULL.
  unfoldable pub find_page : PageCache lib → ℕ → ℕ × PageCache lib
  find_page pc page_number =
      let p = direct_cache_get pc.direct_cache page_number in
      let (q, lru) = lru_cache_get lib pc.lru_cache page_number in
      if p == 0 then (q, record pc { lru_cache = lru }) else (p, pc)

  -- Whether the page was found, and the buffer.
  unfoldable pub page_cache_get : PageCache lib → ℕ → Bytes → Bool × Bytes × PageCache lib
  page_cache_get pc page_number buff =
      let (p, pc') = find_page pc page_number in
      if p == 0
      then (false, buff, pc')
      else (true, (himem_read pc'.himem (pc'.items p).block_id buff pc'.page_size).1, pc')

  -- The branch of `page_cache_set` that takes a block not used before.
  unfoldable pub allocate_block : PageCache lib → ℕ → ℕ × PageCache lib
  unfolding write_page_item
  allocate_block pc page_number = (
    pc.next_item,
    record pc {
      items =
          write_page_item pc.items pc.next_item
            (record { page_number = page_number; block_id = pc.himem_last_allocated_block });
      next_item = pc.next_item + 1;
      himem_last_allocated_block = size_add pc.himem_last_allocated_block 1;
    },
  )

  -- The end of `page_cache_set`: the new page under its item.
  unfoldable pub insert_page : PageCache lib → ℕ → ℕ → Bytes → PageCache lib
  insert_page pc p page_number buff = record pc {
    himem = (himem_write pc.himem (pc.items p).block_id buff pc.page_size).1;
    lru_cache = lru_cache_add lib pc.lru_cache page_number p;
    direct_cache = direct_cache_set pc.direct_cache page_number p;
  }

  module _ {S : Type 0} (on_flush : ℕ → Bytes → S → S) where
    -- `on_page_flush` on the flush buffer and the client's state.
    unfoldable pub on_page_flush : PageCache lib → ℕ → ℕ → Bytes × S → Bytes × S
    on_page_flush pc key value (buffer, s) =
        let buf = (himem_read pc.himem (pc.items value).block_id buffer pc.page_size).1 in
        (buf, on_flush key buf s)

    -- The branch of `page_cache_set` that evicts a page and reuses its item and block.
    unfoldable pub reuse_block : PageCache lib → ℕ → S → ℕ × PageCache lib × S
    unfolding write_page_item
    reuse_block pc page_number s =
        let p = lru_cache_get_least_recently_used lib pc.lru_cache in
        let old = (pc.items p).page_number in
        let (lru, (buf, s')) =
          lru_cache_remove lib (on_page_flush pc) pc.lru_cache old (pc.flush_buffer, s) in
        (
          p,
          record pc {
            lru_cache = lru;
            direct_cache = direct_cache_remove pc.direct_cache old;
            flush_buffer = buf;
            items = write_page_item pc.items p (record (pc.items p) { page_number = page_number });
          },
          s',
        )

    unfoldable pub page_cache_set : PageCache lib → ℕ → Bytes → S → PageCache lib × S
    page_cache_set pc page_number buff s =
        let (p, pc') = find_page pc page_number in
        let written = (himem_write pc'.himem (pc'.items p).block_id buff pc'.page_size).1 in
        let (fresh, pc'') = allocate_block pc' page_number in
        let (reused, evicted, s') = reuse_block pc' page_number s in
        if p == 0
        then if ltb pc'.himem_last_allocated_block pc'.himem_maximum_blocks
          then (insert_page pc'' fresh page_number buff, s)
          else (insert_page evicted reused page_number buff, s')
        else (record pc' { himem = written }, s)
