-- ===== src/Vmm/Flush.antt =====
-- The flush of a resident page: no byte of the memory changes, and what was dirty is in the store.
use esp32_tinyemu.Prelude.{
  ℕ, ◌≤◌, ◌<◌, ◌≡◌, ◌≢◌, false, ◌==◌, if◌then◌else◌, arith, Bool-cases, inl, inr,
}
use esp32_tinyemu.LruCache.NodeList.{Libraries}
use esp32_tinyemu.PageCache.Inv as PageInv
use esp32_tinyemu.Vmm.Store.{Backing, on_page_flush}
use esp32_tinyemu.Vmm.BackingStore.{
  store_byte, backing_store_write_lem, backing_store_write-IsValid, backing_store_write_rest,
}
use esp32_tinyemu.Vmm.Inv.{IsBacked, backed_byte}

module _ (lib : Libraries) {size blocks next : ℕ} {look : ℕ → ℕ} where
  -- The store after the flush of a resident page holds the page's bytes, and the other pages as
  -- they were.
  pub on_page_flush_store :
      {b : Backing lib} (k j off : ℕ)
      → IsBacked lib size blocks next look b
      → look k ≢ 0
      → off < size
      → store_byte lib size (on_page_flush lib size k (look k) b) j off
        ≡ (if k == j then (b.pages (look k)).page_cache off else store_byte lib size b j off)
  unfolding on_page_flush
  on_page_flush_store {b} k j off v ne lt = ground (
    arith,
    ne,
    v.registered k,
    v.clean k off,
    backing_store_write_lem lib b k j off (b.pages (look k)).page_cache v.store_valid,
  )

  -- The flush changes no resident page but for the dirty flag of the flushed one.
  pub on_page_flush_pages :
      {b : Backing lib} (k p : ℕ)
      → IsBacked lib size blocks next look b
      → look k ≢ 0
      → let b' = on_page_flush lib size k (look k) b in
        ((b'.pages p).page_number ≡ (b.pages p).page_number)
        × ((b'.pages p).page_address ≡ (b.pages p).page_address)
        × ((b'.pages p).page_cache ≡ (b.pages p).page_cache)
        × ((b'.pages p).dirty ≡ (if look k == p then false else (b.pages p).dirty))
        × (b.backing_store.size ≤ b'.backing_store.size)
  unfolding on_page_flush
  on_page_flush_pages {b} k p v ne = ground (
    arith,
    ne,
    v.registered k,
    backing_store_write_rest lib b k (b.pages (look k)).page_cache v.store_valid,
  )

  on_page_flush_store-IsValid :
      {b : Backing lib} (k : ℕ)
      → IsBacked lib size blocks next look b
      → look k ≢ 0
      → PageInv.IsValid lib size blocks (on_page_flush lib size k (look k) b).page_cache
  unfolding on_page_flush
  on_page_flush_store-IsValid {b} k v ne = elim (Bool-cases (b.pages (look k)).dirty) [
    | inl e ↦ rw e (
        backing_store_write-IsValid lib b (b.pages (look k)).page_number
          (b.pages (look k)).page_cache v.store_valid (ground (arith, ne, v.registered k)))
    | inr e ↦ rw e v.store_valid
  ]

  pub on_page_flush-IsBacked :
      {b : Backing lib} (k : ℕ)
      → IsBacked lib size blocks next look b
      → look k ≢ 0
      → IsBacked lib size blocks next look (on_page_flush lib size k (look k) b)
  on_page_flush-IsBacked {b} k v ne = record {
    store_valid = on_page_flush_store-IsValid k v ne;
    registered = λ j nj. ground (arith, nj, v.registered j, on_page_flush_pages k (look j) v ne);
    clean = λ j off nj cl lt. ground (
      arith,
      nj,
      cl,
      lt,
      on_page_flush_pages k (look j) v ne,
      on_page_flush_store k j off v ne lt,
      v.registered j,
      v.registered k,
      v.clean j off,
    );
  }

  -- The flush of a resident page changes no byte of the memory.
  pub on_page_flush_view :
      {b : Backing lib} (k j off : ℕ)
      → IsBacked lib size blocks next look b
      → look k ≢ 0
      → off < size
      → backed_byte lib size look (on_page_flush lib size k (look k) b) j off
        ≡ backed_byte lib size look b j off
  on_page_flush_view {b} k j off v ne lt =
      ground
        (arith, ne, lt, on_page_flush_pages k (look j) v ne, on_page_flush_store k j off v ne lt)
