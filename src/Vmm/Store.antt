-- ===== src/Vmm/Store.antt =====
-- lib/VMM/vmm.c below the resident pages: the page cache and the backing store, and the callbacks
-- that the caches call.
use esp32_tinyemu.Prelude.{
  ℕ, Bool, false, ◌==◌, if◌then◌else◌, size_mul, Bytes, memset, File, file_read, file_write,
}
use esp32_tinyemu.LruCache.NodeList.{Libraries}
use esp32_tinyemu.PageCache.{PageCache, page_cache_get, page_cache_set}

-- lib/VMM/vmtable.h, `vmTable_t`
pub record VmTable : Type 0 where
  pub page_number : ℕ
  pub page_address : ℕ
  pub page_cache : Bytes
  pub dirty : Bool

-- The members of `struct VMM_t` that its callbacks use, and the memory of the resident pages.
pub record Backing (lib : Libraries) : Type 0 where
  pub page_cache : PageCache lib
  pub backing_store : File
  pub pages : ℕ → VmTable

-- The page cache's callback, on the backing store.
unfoldable pub on_page_cache_flush : ℕ → ℕ → Bytes → File → File
on_page_cache_flush page_size page_number buf store =
    file_write store (size_mul page_number page_size) buf page_size

module _ (lib : Libraries) (page_size : ℕ) where
  unfoldable pub backing_store_write : ℕ → Bytes → Backing lib → Backing lib
  backing_store_write page_number buf b =
      let (pc, store) =
        page_cache_set lib (on_page_cache_flush page_size) b.page_cache page_number buf
          b.backing_store in
      record b { page_cache = pc; backing_store = store }

  -- A page that is not cached comes from the file; where the file has nothing, it is zeros.
  unfoldable pub backing_store_read : ℕ → Bytes → Backing lib → Bytes × Backing lib
  backing_store_read page_number buf b =
      let (found, cached, pc) = page_cache_get lib b.page_cache page_number buf in
      let (count, read) =
        file_read b.backing_store (size_mul page_number page_size) cached page_size in
      (
        if found then cached else if count == 0 then memset read 0 page_size else read,
        record b { page_cache = pc },
      )

  unfoldable pub load_page : ℕ → VmTable → Backing lib → VmTable × Backing lib
  load_page page_number page b =
      let (buf, b') = backing_store_read page_number page.page_cache b in
      (record page { page_cache = buf }, b')

  mark_clean : (ℕ → VmTable) → ℕ → ℕ → VmTable
  mark_clean f i j = if i == j then record (f j) { dirty = false } else f j

  -- The callback of the VMM's LRU cache.
  unfoldable pub on_page_flush : ℕ → ℕ → Backing lib → Backing lib
  unfolding mark_clean
  on_page_flush key value b =
      let page = b.pages value in
      let b' = backing_store_write page.page_number page.page_cache b in
      if page.dirty then record b' { pages = mark_clean b'.pages value } else b
