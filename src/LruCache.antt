-- ===== src/LruCache.antt =====
-- lib/lru_cache/lru_cache.c: cached pointers by key, in a list that `add` and every hundredth hit
-- move to the front. `on_flush` is an argument of the operations that call it and acts on a state
-- `W` of the client.
pub mod NodeList
pub mod Inv
pub mod Access
pub mod Add
pub mod Evict
pub mod Sync
use esp32_tinyemu.Prelude.{
  ℕ, zero, suc, ◌+◌, ◌%◌, List, [], ◌∷◌, ◌==◌, if◌then◌else◌, size_add, size_sub,
}
use esp32_tinyemu.MemoryIndexer.{
  memory_indexer_init, memory_indexer_search, memory_indexer_set, memory_indexer_remove,
}
use esp32_tinyemu.LruCache.NodeList.{Libraries}

abbrev pub lru_marking : ℕ
lru_marking = 100

-- `cache_item_t`. Its `node` is created with it, has it as `val` and is released with it, so that
-- one address stands for both.
pub record CacheItem : Type 0 where
  pub key : ℕ
  pub value : ℕ
  pub access : ℕ

-- `struct _cache_t`, the memory of its items, and the next address that malloc gives.
pub record Cache (lib : Libraries) : Type 0 where
  pub cache_item_list : lib.Nodes
  pub memory_indexer : lib.avl.Tree
  pub number_of_items : ℕ
  pub items : ℕ → CacheItem
  pub next_item : ℕ

write_item : (ℕ → CacheItem) → ℕ → CacheItem → ℕ → CacheItem
write_item f i x j = if i == j then x else f j

module _ (lib : Libraries) where
  open lib use {avl, list_new, list_lpush, list_rpop, list_remove, list_at_last, list_iterate}

  -- `heap` is the memory in which the items will be allocated, `start` the first free address.
  unfoldable pub lru_cache_init : (ℕ → CacheItem) → ℕ → Cache lib
  lru_cache_init heap start = record {
    cache_item_list = list_new;
    memory_indexer = memory_indexer_init avl;
    number_of_items = 0;
    items = heap;
    next_item = start;
  }

  unfoldable pub lru_cache_count : Cache lib → ℕ
  lru_cache_count c = c.number_of_items

  -- The address of the item under a key, or NULL.
  unfoldable pub find_item : Cache lib → ℕ → ℕ
  find_item c key = memory_indexer_search avl c.memory_indexer key

  -- A hit: `access++`, and a move to the front at each multiple of LRU_MARKING.
  unfoldable pub hit : Cache lib → ℕ → Cache lib
  unfolding write_item
  hit c i =
      let access = size_add (c.items i).access 1 in
      let items = write_item c.items i (record (c.items i) { access = access }) in
      record c {
        cache_item_list =
            if access % lru_marking == 0 then list_lpush c.cache_item_list i else c.cache_item_list;
        items = items;
      }

  unfoldable pub lru_cache_get : Cache lib → ℕ → ℕ × Cache lib
  unfolding hit find_item
  lru_cache_get c key =
      let i = find_item c key in if i == 0 then (0, c) else ((c.items i).value, hit c i)

  unfoldable pub lru_cache_get_least_recently_used : Cache lib → ℕ
  lru_cache_get_least_recently_used c =
      let last = list_at_last c.cache_item_list in if last == 0 then 0 else (c.items last).value

  unfoldable pub lru_cache_add : Cache lib → ℕ → ℕ → Cache lib
  unfolding write_item
  lru_cache_add c key value = record c {
    items = write_item c.items c.next_item (record { key = key; value = value; access = 0 });
    memory_indexer = memory_indexer_set avl c.memory_indexer key c.next_item;
    cache_item_list = list_lpush c.cache_item_list c.next_item;
    number_of_items = size_add c.number_of_items 1;
    next_item = c.next_item + 1;
  }

  module _ {W : Type 0} (on_flush : ℕ → ℕ → W → W) where
    -- The loop of `lru_cache_sync` over the nodes that its iterator returns.
    unfoldable pub sync_nodes : (ℕ → CacheItem) → List ℕ → W → W
    sync_nodes items [] w = w
    sync_nodes items (i ∷ is) w =
        sync_nodes items is (if i == 0 then w else on_flush (items i).key (items i).value w)

    unfoldable pub lru_cache_sync : Cache lib → W → W
    lru_cache_sync c w = sync_nodes c.items (list_iterate c.cache_item_list) w

    unfoldable pub lru_cache_remove : Cache lib → ℕ → W → Cache lib × W
    unfolding find_item
    lru_cache_remove c key w =
        let i = find_item c key in
        if i == 0 then (c, w) else (
          record c {
            cache_item_list = list_remove c.cache_item_list i;
            memory_indexer = memory_indexer_remove avl c.memory_indexer key;
            number_of_items = size_sub c.number_of_items 1;
          },
          on_flush (c.items i).key (c.items i).value w,
        )

    -- One round of the loop of `lru_cache_flush_items`, after a `list_rpop` that returned `last`
    -- and left `rest`.
    unfoldable pub flush_last : Cache lib → ℕ → lib.Nodes → W → Cache lib × W
    flush_last c last rest w = (
      record c {
        cache_item_list = rest;
        memory_indexer = memory_indexer_remove avl c.memory_indexer (c.items last).key;
        number_of_items = size_sub c.number_of_items 1;
      },
      on_flush (c.items last).key (c.items last).value w,
    )

    unfoldable pub lru_cache_flush_items : ℕ → Cache lib → W → Cache lib × W
    lru_cache_flush_items zero c w = (c, w)
    lru_cache_flush_items (suc n) c w =
        let (last, rest) = list_rpop c.cache_item_list in
        let (c', w') = flush_last c last rest w in
        let others = lru_cache_flush_items n c' w' in if last == 0 then (c, w) else others
