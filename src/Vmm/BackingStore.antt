-- ===== src/Vmm/BackingStore.antt =====
-- The page cache over the backing store: pages that are written are read back, from a block or from
-- the file.
use esp32_tinyemu.Prelude.{
  ℕ, ◌+◌, ◌*◌, ◌≤◌, ◌<◌, ◌≡◌, ◌==◌, if◌then◌else◌, arith, size_mod, Bytes, memset, File, file_read,
  file_write, blocks_apart, refl,
}
use native.Mathlib.Nat.{le_trans}
use esp32_tinyemu.LruCache.NodeList.{Libraries}
use esp32_tinyemu.PageCache.Inv.{page_item}
use esp32_tinyemu.PageCache.Inv
use esp32_tinyemu.PageCache.Find.{page_cache_get_lem, page_cache_get-IsValid}
use esp32_tinyemu.PageCache.Set.{
  page_byte, page_cache_set_lem, page_cache_set-IsValid, page_cache_set_inv,
}
use esp32_tinyemu.Vmm.Store.{Backing, on_page_cache_flush, backing_store_write, backing_store_read}

-- The byte at `off` of page `k` in the file.
abbrev pub file_byte : ℕ → File → ℕ → ℕ → ℕ
file_byte size f k off = f.content (k * size + off)

-- A page that the page cache evicts goes to its own place in the file.
file_keeps :
    (size k m off : ℕ) (b : Bytes) (f : File)
    → k * size + size ≤ size_mod
    → off < size
    → file_byte size (on_page_cache_flush size k b f) m off
      ≡ (if k == m then b off else file_byte size f m off)
unfolding on_page_cache_flush file_write
file_keeps size k m off b f fits lt = ground (arith, blocks_apart k m size)

file_grows : (size k : ℕ) (b : Bytes) (f : File) → f.size ≤ (on_page_cache_flush size k b f).size
unfolding on_page_cache_flush file_write
file_grows size k b f = ground arith

module _ (lib : Libraries) where
  -- The byte at `off` of page `k` below the resident pages.
  abbrev pub store_byte : ℕ → Backing lib → ℕ → ℕ → ℕ
  store_byte size b k off = page_byte lib b.page_cache size (file_byte size b.backing_store) k off

  -- A page that is written is read back, no other page changes, and the file does not shrink.
  pub backing_store_write_lem :
      (b : Backing lib) {size blocks : ℕ} (n j off : ℕ) (buf : Bytes)
      → Inv.IsValid lib size blocks b.page_cache
      → n * size + size ≤ size_mod
      → off < size
      → store_byte size (backing_store_write lib size n buf b) j off
        ≡ (if n == j then buf off else store_byte size b j off)
  unfolding backing_store_write
  backing_store_write_lem b {size} n j off buf v fits lt =
      page_cache_set_lem lib (on_page_cache_flush size) (file_byte size) size (file_keeps size) n j
        off buf b.backing_store v fits lt

  pub backing_store_write-IsValid :
      (b : Backing lib) {size blocks : ℕ} (n : ℕ) (buf : Bytes)
      → Inv.IsValid lib size blocks b.page_cache
      → n * size + size ≤ size_mod
      → Inv.IsValid lib size blocks (backing_store_write lib size n buf b).page_cache
  unfolding backing_store_write
  backing_store_write-IsValid b {size} n buf v fits =
      page_cache_set-IsValid lib (on_page_cache_flush size) (file_byte size) size (file_keeps size)
        n buf b.backing_store v fits

  pub backing_store_write_rest :
      (b : Backing lib) {size blocks : ℕ} (n : ℕ) (buf : Bytes)
      → Inv.IsValid lib size blocks b.page_cache
      → (b.backing_store.size ≤ (backing_store_write lib size n buf b).backing_store.size)
        × ((backing_store_write lib size n buf b).pages ≡ b.pages)
  unfolding backing_store_write
  backing_store_write_rest b {size} n buf v = (
    page_cache_set_inv lib (on_page_cache_flush size) (λ f. b.backing_store.size ≤ f.size)
        (λ k buf' f h. le_trans h (file_grows size k buf' f)) n buf b.backing_store v (omega arith),
    refl,
  )

  -- A page that lies within the file is read as it is, and no page changes.
  pub backing_store_read_lem :
      (b : Backing lib) {size blocks : ℕ} (n j off : ℕ) (buf : Bytes)
      → Inv.IsValid lib size blocks b.page_cache
      → n * size + size ≤ size_mod
      → n * size + size ≤ b.backing_store.size
      → off < size
      → let (read, b') = backing_store_read lib size n buf b in
        (read off ≡ store_byte size b n off) × (store_byte size b' j off ≡ store_byte size b j off)
  unfolding backing_store_read file_read memset
  backing_store_read_lem b {size} n j off buf v fits inside lt =
      ground (arith, page_cache_get_lem lib n j off buf v lt)

  pub backing_store_read-IsValid :
      (b : Backing lib) {size blocks : ℕ} (n : ℕ) (buf : Bytes)
      → Inv.IsValid lib size blocks b.page_cache
      → Inv.IsValid lib size blocks (backing_store_read lib size n buf b).1.page_cache
  unfolding backing_store_read
  backing_store_read-IsValid b n buf v = page_cache_get-IsValid lib n buf v

  pub backing_store_read_rest :
      (b : Backing lib) (size n : ℕ) (buf : Bytes)
      → ((backing_store_read lib size n buf b).1.backing_store ≡ b.backing_store)
        × ((backing_store_read lib size n buf b).1.pages ≡ b.pages)
  unfolding backing_store_read
  backing_store_read_rest b size n buf = (refl, refl)
