-- ===== src/Vmm/Inv.antt =====
-- The invariant of `struct VMM_t` and its view as one array of bytes.
use esp32_tinyemu.Prelude.{
  ℕ, ◌+◌, ◌*◌, ◌/◌, ◌%◌, ◌^◌, ◌≤◌, ◌<◌, ◌≡◌, ◌≢◌, false, ◌==◌, if◌then◌else◌, length, size_mod, max,
}
use esp32_tinyemu.DirectCache.{direct_cache_get}
use esp32_tinyemu.LruCache.NodeList.{Libraries}
use esp32_tinyemu.LruCache.Inv
use esp32_tinyemu.LruCache.Inv.{nodes, lookup}
use esp32_tinyemu.PageCache.Inv as PageInv
use esp32_tinyemu.Vmm.Store.{Backing}
use esp32_tinyemu.Vmm.BackingStore.{store_byte}
use esp32_tinyemu.Vmm.{Vmm}

module _ (lib : Libraries) where
  -- The resident pages that `look` finds: each is registered under its own number and address, lies
  -- within the file and the address space, and holds what the store holds if it is not dirty.
  pub record IsBacked (size blocks next : ℕ) (look : ℕ → ℕ) (b : Backing lib) : Type 0 where
    pub store_valid : PageInv.IsValid lib size blocks b.page_cache
    pub registered :
        (k : ℕ)
        → look k ≢ 0
        → ((b.pages (look k)).page_number ≡ k)
          × ((b.pages (look k)).page_address ≡ k * size)
          × (look k < next)
          × (k * size + size ≤ size_mod)
          × (k * size + size ≤ b.backing_store.size)
    pub clean :
        (k off : ℕ)
        → look k ≢ 0
        → (b.pages (look k)).dirty ≡ false
        → off < size
        → (b.pages (look k)).page_cache off ≡ store_byte lib size b k off

  -- The byte at `off` of page `k`: of the resident page, or of the store.
  abbrev pub backed_byte : ℕ → (ℕ → ℕ) → Backing lib → ℕ → ℕ → ℕ
  backed_byte size look b k off =
      if look k == 0 then store_byte lib size b k off else (b.pages (look k)).page_cache off

  -- The resident page of a number, NULL for none.
  abbrev pub resident : Vmm lib → ℕ → ℕ
  resident v k = lookup lib v.lru_cache k

  pub record IsValid (size blocks : ℕ) (v : Vmm lib) : Type 0 where
    pub size_pos : 0 < size
    pub size_u16 : size < 2 ^ 16
    pub page_size : v.page_size ≡ size
    pub lru_valid : Inv.IsValid lib v.lru_cache
    pub lines : v.direct_cache.cache_size ≡ 8192
    pub next_pos : 0 < v.next_page
    pub coherent :
        (k : ℕ)
        → direct_cache_get v.direct_cache k ≢ 0
        → direct_cache_get v.direct_cache k ≡ resident v k
    pub number_u32 : v.number_of_pages < size_mod
    pub capacity : length (nodes lib v.lru_cache) ≤ max 1 v.number_of_pages
    pub pages : v.pagetable_size ≡ length (nodes lib v.lru_cache) % size_mod
    pub backed : IsBacked size blocks v.next_page (lookup lib v.lru_cache) v.backing

  abbrev pub page_view : ℕ → Vmm lib → ℕ → ℕ → ℕ
  page_view size v k off = backed_byte size (lookup lib v.lru_cache) v.backing k off

  -- The memory as the machine sees it: the byte at an address.
  abbrev pub mem_byte : ℕ → Vmm lib → ℕ → ℕ
  mem_byte size v a = page_view size v (a / size) (a % size)
