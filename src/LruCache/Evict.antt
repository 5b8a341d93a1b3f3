-- ===== src/LruCache/Evict.antt =====
-- `lru_cache_remove` and `lru_cache_flush_items`: what they flush, and that they
-- keep the invariant.
use esp32_tinyemu.Prelude.{
  ℕ, zero, suc, ◌+◌, ◌-◌, ◌≡◌, ◌≢◌, true, List, [], ◌∷◌, ◌==◌, if◌then◌else◌, arith, contains,
  erase, length, last_or, refl, Bool-cases, eq-cases, inl, inr, contains-erase, length-erase,
  last_or-contains, size_sub,
}
use esp32_tinyemu.MemoryIndexer.{memory_indexer_remove}
use esp32_tinyemu.MemoryIndexer.Laws.{search-remove_lem}
use esp32_tinyemu.LruCache.NodeList.{Libraries}
use esp32_tinyemu.LruCache.{Cache, find_item, lru_cache_remove, flush_last, lru_cache_flush_items}
use esp32_tinyemu.LruCache.Inv.{IsValid, nodes, lookup}

module _ (lib : Libraries) where
  open lib use {
    avl, sequence, list_remove, list_rpop, list_iterate, IsList, IsList-distinct, IsList-remove,
    sequence-remove, rpop-last, IsList-rpop, sequence-rpop, iterate_lem,
  }

  -- The cache after the item at `i`, with the key `k`, has left its list and its index.
  abbrev pub without : Cache lib → ℕ → lib.Nodes → Cache lib
  without c k rest = record c {
    cache_item_list = rest;
    memory_indexer = memory_indexer_remove avl c.memory_indexer k;
    number_of_items = size_sub c.number_of_items 1;
  }

  without-IsValid :
      {c : Cache lib} (i : ℕ) (rest : lib.Nodes)
      → IsValid lib c
      → contains (nodes lib c) i ≡ true
      → IsList rest
      → sequence rest ≡ erase i (nodes lib c)
      → IsValid lib (without c (c.items i).key rest)
  unfolding find_item
  without-IsValid {c} i rest v m l e = record {
    list_valid = l;
    found = λ j ne. ground (
      arith,
      ne,
      e,
      search-remove_lem avl c.memory_indexer (c.items i).key j,
      contains-erase i (find_item lib c j) (nodes lib c),
      v.found j,
      v.listed i m,
    );
    listed = λ j mj. ground (
      arith,
      mj,
      e,
      search-remove_lem avl c.memory_indexer (c.items i).key (c.items j).key,
      contains-erase i j (nodes lib c),
      v.listed j,
      v.listed i m,
    );
    count = ground (
      arith,
      e,
      v.count,
      length-erase i (nodes lib c) (IsList-distinct c.cache_item_list v.list_valid) m,
    );
    next_pos = v.next_pos;
  }

  pub lookup_of_listed :
      {c : Cache lib} {i : ℕ}
      → IsValid lib c
      → contains (nodes lib c) i ≡ true
      → lookup lib c (c.items i).key ≡ (c.items i).value
  unfolding lookup
  lookup_of_listed {c} {i} v m = ground (arith, v.listed i m)

  last-listed : (xs : List ℕ) → length xs ≢ 0 → contains xs (last_or xs 0) ≡ true
  last-listed [] h = absurd (h refl)
  last-listed (x ∷ xs) h = last_or-contains x xs 0

  last-empty : (xs : List ℕ) → length xs ≡ 0 → last_or xs 0 ≡ 0
  unfolding last_or
  last-empty [] h = refl
  last-empty (x ∷ xs) h = absurd (omega (arith, h))

  module _ {W : Type 0} (on_flush : ℕ → ℕ → W → W) where
    -- A removal of an absent key does nothing.
    pub remove_absent :
        (c : Cache lib) (k : ℕ) (w : W)
        → find_item lib c k ≡ 0
        → lru_cache_remove lib on_flush c k w ≡ (c, w)
    unfolding lru_cache_remove
    remove_absent c k w e = ground (arith, e)

    -- A removal of a cached key flushes its pointer under that key.
    pub remove_flushes :
        {c : Cache lib} (k : ℕ) (w : W)
        → IsValid lib c
        → lookup lib c k ≢ 0
        → (lru_cache_remove lib on_flush c k w).1 ≡ on_flush k (lookup lib c k) w
    unfolding lru_cache_remove lookup
    remove_flushes {c} k w v ne = ground (arith, v.found k)

    -- After a removal the key holds NULL and every other key what it held.
    pub lookup-remove :
        {c : Cache lib} (k j : ℕ) (w : W)
        → IsValid lib c
        → lookup lib (lru_cache_remove lib on_flush c k w).0 j
          ≡ (if k == j then 0 else lookup lib c j)
    unfolding lru_cache_remove lookup find_item
    lookup-remove {c} k j w v =
        ground (arith, search-remove_lem avl c.memory_indexer k j, v.found j)

    -- A removal keeps the invariant, whether the key is cached or not.
    pub remove-IsValid :
        {c : Cache lib} (k : ℕ) (w : W)
        → IsValid lib c
        → IsValid lib (lru_cache_remove lib on_flush c k w).0
    unfolding lru_cache_remove
    remove-IsValid {c} k w v = elim (Bool-cases (find_item lib c k == 0)) [
      | inl e ↦ rw e v
      | inr e ↦ rw e (removed (v.found k (ground (arith, e))))
    ]
      where
        i : ℕ
        i = find_item lib c k

        removed :
            (contains (nodes lib c) i ≡ true) × ((c.items i).key ≡ k)
            → IsValid lib (without c k (list_remove c.cache_item_list i))
        removed (m, e) = rw e at (
            without-IsValid i (list_remove c.cache_item_list i) v m
              (IsList-remove c.cache_item_list i v.list_valid m)
              (sequence-remove c.cache_item_list i v.list_valid m))

    -- A removal of a cached key takes one node out.
    pub remove-length :
        {c : Cache lib} (k : ℕ) (w : W)
        → IsValid lib c
        → lookup lib c k ≢ 0
        → length (nodes lib (lru_cache_remove lib on_flush c k w).0) + 1 ≡ length (nodes lib c)
    unfolding lru_cache_remove lookup
    remove-length {c} k w v ne = ground (
      arith,
      ne,
      v.found k,
      sequence-remove c.cache_item_list (find_item lib c k) v.list_valid,
      length-erase (find_item lib c k) (nodes lib c)
          (IsList-distinct c.cache_item_list v.list_valid),
    )

    -- One round of the flush loop on a list that is not empty.
    round-IsValid :
        {c : Cache lib} (w : W)
        → IsValid lib c
        → length (nodes lib c) ≢ 0
        → let (last, rest) = list_rpop c.cache_item_list in
          IsValid lib (flush_last lib on_flush c last rest w).0
    unfolding flush_last
    round-IsValid {c} w v ne = rw (rpop-last c.cache_item_list v.list_valid) (
        without-IsValid (last_or (nodes lib c) 0) (list_rpop c.cache_item_list).1 v
          (last-listed (nodes lib c) ne) (IsList-rpop c.cache_item_list v.list_valid)
          (sequence-rpop c.cache_item_list v.list_valid))

    round-length :
        {c : Cache lib} (w : W)
        → IsValid lib c
        → length (nodes lib c) ≢ 0
        → let (last, rest) = list_rpop c.cache_item_list in
          length (nodes lib (flush_last lib on_flush c last rest w).0) + 1 ≡ length (nodes lib c)
    unfolding flush_last
    round-length {c} w v ne = rw (sequence-rpop c.cache_item_list v.list_valid) (
        length-erase (last_or (nodes lib c) 0) (nodes lib c)
          (IsList-distinct c.cache_item_list v.list_valid) (last-listed (nodes lib c) ne))

    rpop-null :
        {c : Cache lib}
        → IsValid lib c
        → ((list_rpop c.cache_item_list).0 == 0) ≡ (length (nodes lib c) == 0)
    unfolding last_or
    rpop-null {c} v =
        rw (rpop-last c.cache_item_list v.list_valid) (elim (eq-cases (length (nodes lib c)) 0) [
          | inl e ↦ ground (arith, e, last-empty (nodes lib c) e)
          | inr ne ↦
              ground (arith, ne, v.listed (last_or (nodes lib c) 0) (last-listed (nodes lib c) ne))
        ])

    -- A flush of `n` items keeps the invariant and evicts `n` of them, or all if there are fewer.
    pub flush_items_lem :
        (n : ℕ) {c : Cache lib} (w : W)
        → IsValid lib c
        → let (c', _) = lru_cache_flush_items lib on_flush n c w in
          IsValid lib c' × (length (nodes lib c') ≡ length (nodes lib c) - n)
    unfolding lru_cache_flush_items
    flush_items_lem zero w v = (v, omega arith)
    flush_items_lem (suc n) {c} w v = elim (Bool-cases (length (nodes lib c) == 0)) [
      | inl e ↦ rw (rpop-null v, e) (v, ground (arith, e))
      | inr e ↦
          rw (rpop-null v, e)
            (let (last, others) = list_rpop c.cache_item_list in
              let ne : length (nodes lib c) ≢ 0 = ground (arith, e) in
              let again =
                flush_items_lem n {c = (flush_last lib on_flush c last others w).0}
                  (flush_last lib on_flush c last others w).1 (round-IsValid w v ne) in
              (again.0, ground (arith, again.1, round-length w v ne)))
    ]
