-- ===== src/LruCache/Add.antt =====
-- `lru_cache_add` under a key that is not cached, and the item that is evicted next.
use esp32_tinyemu.Prelude.{
  ℕ, ◌+◌, ◌≡◌, ◌≢◌, true, false, List, [], ◌∷◌, ◌==◌, if◌then◌else◌, arith, contains, length,
  last_or, refl, Bool-cases, inl, inr, erase_absent, last_or-contains,
}
use esp32_tinyemu.MemoryIndexer.Laws.{search-set}
use esp32_tinyemu.LruCache.NodeList.{Libraries}
use esp32_tinyemu.LruCache.{Cache, find_item, lru_cache_add, lru_cache_get_least_recently_used}
use esp32_tinyemu.LruCache.Inv.{IsValid, nodes, lookup}

module _ (lib : Libraries) where
  open lib use {avl, sequence, list_lpush, list_at_last, IsList-lpush, sequence-lpush, at_last_lem}

  -- The address that malloc gives is no node of the list.
  fresh : {c : Cache lib} → IsValid lib c → contains (nodes lib c) c.next_item ≡ false
  fresh {c} v = elim (Bool-cases (contains (nodes lib c) c.next_item)) [
    | inl m ↦ absurd (omega (arith, v.listed c.next_item m))
    | inr m ↦ m
  ]

  add_nodes :
      {c : Cache lib}
      → IsValid lib c
      → sequence (list_lpush c.cache_item_list c.next_item) ≡ c.next_item ∷ nodes lib c
  add_nodes {c} v = ground (
    arith,
    v.next_pos,
    sequence-lpush c.cache_item_list c.next_item v.list_valid,
    erase_absent c.next_item (nodes lib c) (fresh v),
  )

  -- A new entry adds one node.
  pub add-length :
      {c : Cache lib} (k p : ℕ)
      → IsValid lib c
      → length (nodes lib (lru_cache_add lib c k p)) ≡ length (nodes lib c) + 1
  unfolding lru_cache_add
  add-length {c} k p v = ground (arith, add_nodes v)

  -- The addition of a pointer, not NULL, under a key that is not cached keeps the invariant.
  pub add-IsValid :
      {c : Cache lib} (k p : ℕ)
      → IsValid lib c
      → lookup lib c k ≡ 0
      → p ≢ 0
      → IsValid lib (lru_cache_add lib c k p)
  unfolding lru_cache_add lookup find_item contains
  add-IsValid {c} k p v absent ne = record {
    list_valid =
        IsList-lpush c.cache_item_list c.next_item v.list_valid (ground (arith, v.next_pos));
    found = λ j nj. ground (
      arith,
      nj,
      add_nodes v,
      search-set avl c.memory_indexer k c.next_item j,
      v.found j,
      fresh v,
    );
    listed = λ i m. ground (
      arith,
      m,
      add_nodes v,
      search-set avl c.memory_indexer k c.next_item (c.items i).key,
      search-set avl c.memory_indexer k c.next_item k,
      v.listed i,
      v.next_pos,
    );
    count = ground (arith, add_nodes v, v.count);
    next_pos = ground (arith, v.next_pos);
  }

  -- After an addition the key holds the new pointer and every other key what it held.
  pub lookup-add :
      {c : Cache lib} (k p j : ℕ)
      → IsValid lib c
      → lookup lib (lru_cache_add lib c k p) j ≡ (if k == j then p else lookup lib c j)
  unfolding lru_cache_add lookup find_item
  lookup-add {c} k p j v =
      ground
        (arith, search-set avl c.memory_indexer k c.next_item j, v.next_pos, v.found j, fresh v)

  -- The item that is evicted next is NULL only for an empty list, and otherwise the pointer of a
  -- key that is cached.
  pub least_recently_used_lem :
      {c : Cache lib}
      → IsValid lib c
      → length (nodes lib c) ≢ 0
      → (k : ℕ) × (lookup lib c k ≡ lru_cache_get_least_recently_used lib c)
        × (lru_cache_get_least_recently_used lib c ≢ 0)
  unfolding lru_cache_get_least_recently_used lookup
  least_recently_used_lem {c} v ne = (
    (c.items last).key,
    ground (
      arith,
      at_last_lem c.cache_item_list v.list_valid,
      v.listed last (listed-last (nodes lib c) ne),
    ),
    ground (
      arith,
      at_last_lem c.cache_item_list v.list_valid,
      v.listed last (listed-last (nodes lib c) ne),
    ),
  )
    where
      last : ℕ
      last = last_or (nodes lib c) 0

      listed-last : (xs : List ℕ) → length xs ≢ 0 → contains xs (last_or xs 0) ≡ true
      listed-last [] h = absurd (h refl)
      listed-last (x ∷ xs) h = last_or-contains x xs 0

  pub least_recently_used-empty :
      {c : Cache lib}
      → IsValid lib c
      → length (nodes lib c) ≡ 0
      → lru_cache_get_least_recently_used lib c ≡ 0
  unfolding lru_cache_get_least_recently_used last_or
  least_recently_used-empty {c} v e =
      ground (arith, at_last_lem c.cache_item_list v.list_valid, empty (nodes lib c) e)
    where
      empty : (xs : List ℕ) → length xs ≡ 0 → last_or xs 0 ≡ 0
      empty [] h = refl
      empty (x ∷ xs) h = absurd (omega (arith, h))
