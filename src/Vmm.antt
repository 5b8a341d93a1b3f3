-- ===== src/Vmm.antt =====
-- lib/VMM/vmm.c: the RAM of the emulated machine, paged to a file. Resident pages are found by a
-- direct-mapped table and an LRU cache; an evicted page that is dirty goes to the page cache, and
-- what the page cache evicts goes to the backing store.
pub mod Store
pub mod BackingStore
pub mod Inv
pub mod Flush
pub mod Tlb
pub mod Evict
pub mod GetPage
pub mod Range
pub mod Read
pub mod Write
pub mod Sync
pub mod Refine
use esp32_tinyemu.Prelude.{
  ℕ, zero, suc, ◌+◌, ◌*◌, ◌/◌, Bool, true, false, Option, none, some, ◌==◌, if◌then◌else◌, leb, min,
  size_add, size_sub, size_mul, Bytes, memcpy, File,
}
use esp32_tinyemu.DirectCache.{
  CacheLine, DirectCache, direct_cache_init, direct_cache_get, direct_cache_set,
  direct_cache_remove,
}
use esp32_tinyemu.LruCache.NodeList.{Libraries}
use esp32_tinyemu.LruCache.{
  CacheItem, Cache, lru_cache_init, lru_cache_get, lru_cache_get_least_recently_used,
  lru_cache_remove, lru_cache_add, lru_cache_sync, lru_cache_count, lru_cache_flush_items,
}
use esp32_tinyemu.PageCache.{PageCache, PageCacheHeap, page_cache_init}
use esp32_tinyemu.Vmm.Store.{VmTable, Backing, load_page, on_page_flush}

-- `struct VMM_t`, and the next address that malloc gives. What `on_page_flush` reaches of it, the
-- page cache, the backing store and the resident pages, is `backing`.
pub record Vmm (lib : Libraries) : Type 0 where
  pub page_size : ℕ
  pub number_of_pages : ℕ
  pub pagetable_size : ℕ
  pub lru_cache : Cache lib
  pub direct_cache : DirectCache
  pub next_page : ℕ
  pub backing : Backing lib

-- What malloc leaves in the memory that a new VMM uses.
pub record VmmHeap : Type 0 where
  pub lines : ℕ → CacheLine
  pub cache_items : ℕ → CacheItem
  pub pages : ℕ → VmTable
  pub page_cache : PageCacheHeap

write_page : (ℕ → VmTable) → ℕ → VmTable → ℕ → VmTable
write_page f i x j = if i == j then x else f j

module _ (lib : Libraries) where
  -- The file operations succeed. A hole in the file, made by `fseek` and `fputc`, reads as zeros.
  unfoldable pub vmm_create : VmmHeap → ℕ → ℕ → ℕ → ℕ → Vmm lib
  vmm_create heap maximum_size page_size number_of_pages maximum_himem_blocks = record {
    page_size = page_size;
    number_of_pages = number_of_pages;
    pagetable_size = 0;
    lru_cache = lru_cache_init lib heap.cache_items 1;
    direct_cache = direct_cache_init heap.lines (1024 * 8);
    next_page = 1;
    backing = record {
      page_cache = page_cache_init lib heap.page_cache page_size maximum_himem_blocks;
      backing_store = record { size = maximum_size + 1; content = λ _. 0 };
      pages = heap.pages;
    };
  }

  unfoldable pub get_page_number_by_address : Vmm lib → ℕ → ℕ
  get_page_number_by_address v address = address / v.page_size

  -- The resident page of a number, or NULL.
  unfoldable pub get_tlb : Vmm lib → ℕ → ℕ × Vmm lib
  get_tlb v page_number =
      let p = direct_cache_get v.direct_cache page_number in
      let (q, lru) = lru_cache_get lib v.lru_cache page_number in
      if p == 0 then (q, record v { lru_cache = lru }) else (p, v)

  unfoldable pub free_vmtable : Vmm lib → ℕ → Vmm lib
  free_vmtable v entry =
      let n = (v.backing.pages entry).page_number in
      let (lru, b) = lru_cache_remove lib (on_page_flush lib v.page_size) v.lru_cache n v.backing in
      record v {
        lru_cache = lru;
        backing = b;
        direct_cache = direct_cache_remove v.direct_cache (b.pages entry).page_number;
      }

  -- The fields of the new entry hold what malloc left there.
  unfoldable pub new_vmtable : Vmm lib → ℕ × Vmm lib
  new_vmtable v = (v.next_page, record v { next_page = v.next_page + 1 })

  -- The eviction at the start of `find_empty_tlb`.
  unfoldable pub make_room : Vmm lib → Vmm lib
  make_room v =
      let last = lru_cache_get_least_recently_used lib v.lru_cache in
      let freed = free_vmtable v last in
      if leb v.number_of_pages v.pagetable_size
      then if last == 0
        then v
        else record freed { pagetable_size = size_sub freed.pagetable_size 1 }
      else v

  unfoldable pub find_empty_tlb : Vmm lib → ℕ × Vmm lib
  find_empty_tlb v =
      let (p, v') = new_vmtable (make_room v) in
      (p, record v' { pagetable_size = size_add v'.pagetable_size 1 })

  -- The miss branch of `get_page`.
  unfoldable pub fault : Vmm lib → ℕ → ℕ → ℕ × Vmm lib
  unfolding write_page
  fault v page_number page_offset =
      let (p, v') = find_empty_tlb v in
      let page = record (v'.backing.pages p) {
        page_number = page_number;
        page_address = page_offset;
      } in
      let (loaded, b) = load_page lib v'.page_size page_number page v'.backing in
      (
        p,
        record v' {
          backing = record b { pages = write_page b.pages p loaded };
          lru_cache = lru_cache_add lib v'.lru_cache page_number p;
          direct_cache = direct_cache_set v'.direct_cache page_number p;
        },
      )

  unfoldable pub get_page : Vmm lib → ℕ → ℕ × Vmm lib
  unfolding get_page_number_by_address
  get_page v addr =
      let page_number = get_page_number_by_address v addr in
      let page_offset = size_mul page_number v.page_size in
      let (p, v') = get_tlb v page_number in
      if p == 0 then fault v' page_number page_offset else (p, v')

  -- The bytes read, the target from `offset` on, and the new state.
  unfoldable pub vmm_read_internal : Vmm lib → ℕ → Bytes → ℕ → ℕ → ℕ × Bytes × Vmm lib
  vmm_read_internal v addr target target_offset len =
      let (p, v') = get_page v addr in
      let page = v'.backing.pages p in
      let offset = size_sub addr page.page_address in
      let max_length = size_sub v'.page_size offset in
      let n = min len max_length in (n, memcpy target target_offset page.page_cache offset n, v')

  -- The loop of `vmm_read`, on fuel; `none` means that it ran out.
  unfoldable pub read_loop : ℕ → Vmm lib → ℕ → Bytes → ℕ → ℕ → Option (Bytes × Vmm lib)
  read_loop zero v addr target offset remain = if remain == 0 then some (target, v) else none
  read_loop (suc fuel) v addr target offset remain =
      let (n, target', v') = vmm_read_internal v (size_add addr offset) target offset remain in
      let rest = read_loop fuel v' addr target' (size_add offset n) (size_sub remain n) in
      if remain == 0 then some (target, v) else rest

  -- Each round copies a byte at least, so `len` rounds are enough.
  unfoldable pub vmm_read : Vmm lib → ℕ → Bytes → ℕ → Option (Bytes × Vmm lib)
  vmm_read v addr target len = read_loop len v addr target 0 len

  unfoldable pub vmm_write_internal : Vmm lib → ℕ → Bytes → ℕ → ℕ → ℕ × Vmm lib
  unfolding write_page
  vmm_write_internal v addr source source_offset len =
      let (p, v') = get_page v addr in
      let page = v'.backing.pages p in
      let offset = size_sub addr page.page_address in
      let max_length = size_sub v'.page_size offset in
      let n = min len max_length in
      let written = record page {
        page_cache = memcpy page.page_cache offset source source_offset n;
        dirty = true;
      } in
      let b = v'.backing in
      (n, record v' { backing = record b { pages = write_page b.pages p written } })

  unfoldable pub write_loop : ℕ → Vmm lib → ℕ → Bytes → ℕ → ℕ → Option (Vmm lib)
  write_loop zero v addr source offset remain = if remain == 0 then some v else none
  write_loop (suc fuel) v addr source offset remain =
      let (n, v') = vmm_write_internal v (size_add addr offset) source offset remain in
      let rest = write_loop fuel v' addr source (size_add offset n) (size_sub remain n) in
      if remain == 0 then some v else rest

  unfoldable pub vmm_write : Vmm lib → ℕ → Bytes → ℕ → Option (Vmm lib)
  vmm_write v addr source len = write_loop len v addr source 0 len

  -- `fflush` hands the written bytes on and changes none.
  unfoldable pub vmm_flush : Vmm lib → Vmm lib
  vmm_flush v = record v {
    backing = lru_cache_sync lib (on_page_flush lib v.page_size) v.lru_cache v.backing;
  }
