-- ===== src/LruCache/Inv.antt =====
-- The invariant of `struct _cache_t` and its view as a map from keys to pointers.
use esp32_tinyemu.Prelude.{
  ℕ, ◌%◌, ◌<◌, ◌≡◌, ◌≢◌, true, List, ◌==◌, if◌then◌else◌, arith, contains, length, size_mod,
}
use esp32_tinyemu.MemoryIndexer.Laws.{search-init_null}
use esp32_tinyemu.LruCache.NodeList.{Libraries}
use esp32_tinyemu.LruCache.{CacheItem, Cache, lru_cache_init, find_item}

module _ (lib : Libraries) where
  open lib use {avl, IsList, sequence, IsList-new, sequence-new}

  -- The nodes of the cache, the first to the last.
  abbrev pub nodes : Cache lib → List ℕ
  nodes c = sequence c.cache_item_list

  -- The pointer under a key, NULL for none.
  unfoldable pub lookup : Cache lib → ℕ → ℕ
  lookup c key = let i = find_item lib c key in if i == 0 then 0 else (c.items i).value

  -- The index and the list hold the same items: each key finds a listed item of that key, and each
  -- listed item is the one that its key finds.
  pub record IsValid (c : Cache lib) : Type 0 where
    pub list_valid : IsList c.cache_item_list
    pub found :
        (k : ℕ)
        → find_item lib c k ≢ 0
        → (contains (nodes c) (find_item lib c k) ≡ true) × ((c.items (find_item lib c k)).key ≡ k)
    pub listed :
        (i : ℕ)
        → contains (nodes c) i ≡ true
        → (find_item lib c (c.items i).key ≡ i)
          × (i ≢ 0)
          × (i < c.next_item)
          × ((c.items i).value ≢ 0)
    pub count : c.number_of_items ≡ length (nodes c) % size_mod
    pub next_pos : 0 < c.next_item

  pub init-IsValid :
      (heap : ℕ → CacheItem) (start : ℕ) → 0 < start → IsValid (lru_cache_init lib heap start)
  unfolding lru_cache_init find_item contains
  init-IsValid heap start h = record {
    list_valid = IsList-new;
    found = λ k ne. absurd (ne (search-init_null avl k));
    listed = λ i m. ground (arith, m, sequence-new);
    count = ground (arith, sequence-new);
    next_pos = h;
  }

  pub lookup-init :
      (heap : ℕ → CacheItem) (start k : ℕ) → lookup (lru_cache_init lib heap start) k ≡ 0
  unfolding lookup lru_cache_init find_item
  lookup-init heap start k = ground (arith, search-init_null avl k)
