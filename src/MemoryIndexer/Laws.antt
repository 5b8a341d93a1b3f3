-- ===== src/MemoryIndexer/Laws.antt =====
-- What a client of memory_indexer.c may rely on: the laws of a finite map.
use esp32_tinyemu.Prelude.{Option-cases, ℕ, ◌≡◌, inl, inr, ◌==◌, if◌then◌else◌, arith}
use esp32_tinyemu.MemoryIndexer.Avl.{MemoryWrapper, AvlTree, cmp_func}
use esp32_tinyemu.MemoryIndexer.{
  query, memory_indexer_init, memory_indexer_set, memory_indexer_search, memory_indexer_remove,
}

module _ (avl : AvlTree) where
  open avl use {
    Tree, avl_search, avl_insert, avl_remove, search-same, search-init, search-insert,
    search-remove,
  }

  -- A new indexer answers NULL for every key.
  pub search-init_null : (k : ℕ) → memory_indexer_search avl (memory_indexer_init avl) k ≡ 0
  unfolding memory_indexer_search memory_indexer_init
  search-init_null k = ground (arith, search-init (query avl k))

  -- The removal of a key makes its search answer NULL and no other.
  pub search-remove_lem :
      (t : Tree) (k j : ℕ)
      → memory_indexer_search avl (memory_indexer_remove avl t k) j
        ≡ (if k == j then 0 else memory_indexer_search avl t j)
  unfolding memory_indexer_search memory_indexer_remove
  search-remove_lem t k j = elim (Option-cases (avl_search t (query avl k) cmp_func)) [
    | inl e ↦ ground (arith, e)
    | inr (w, e) ↦ ground (arith, e, search-remove t (query avl k) w (query avl j) e)
  ]

  -- A store under a key makes its search answer the value and changes no other.
  pub search-set :
      (t : Tree) (k v j : ℕ)
      → memory_indexer_search avl (memory_indexer_set avl t k v) j
        ≡ (if k == j then v else memory_indexer_search avl t j)
  unfolding memory_indexer_search memory_indexer_set memory_indexer_remove query
  search-set t k v j = elim (Option-cases (avl_search t (query avl k) cmp_func)) [
    | inl e ↦ ground (arith, e, same k, search-insert t new (query avl j))
    | inr (w, e) ↦ ground (
      arith,
      e,
      search-remove t (query avl k) w (query avl j) e,
      search-remove t (query avl k) w new e,
      search-insert (avl_remove t w) new (query avl j),
    )
  ]
    where
      new : MemoryWrapper
      new = record { key = k; value = v }

      same : (i : ℕ) → avl_search t (query avl k) cmp_func ≡ avl_search t new cmp_func
      same i = search-same t (query avl k) new (ground arith)
