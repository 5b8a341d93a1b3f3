-- ===== src/MemoryIndexer.antt =====
-- lib/memory_indexer/memory_indexer.c: a finite map from keys to pointers, over an ordered tree of
-- wrapper nodes. The tree is lib/avltree, a copy of another project's library: its calls are the
-- operations of the parameter `AvlTree`.
pub mod Avl
pub mod Laws
use esp32_tinyemu.Prelude.{ℕ, Option, none, some}
use esp32_tinyemu.MemoryIndexer.Avl.{MemoryWrapper, AvlTree, cmp_func}

module _ (avl : AvlTree) where
  open avl use {Tree, avl_init, avl_search, avl_insert, avl_remove}

  unfoldable pub memory_indexer_init : Tree
  memory_indexer_init = avl_init

  -- The query is a wrapper of which only the key is set.
  query : ℕ → MemoryWrapper
  query key = record { key = key; value = 0 }

  unfoldable pub memory_indexer_search : Tree → ℕ → ℕ
  unfolding query
  memory_indexer_search t key = elim (avl_search t (query key) cmp_func) [
    | none ↦ 0
    | some wrapper ↦ wrapper.value
  ]

  unfoldable pub memory_indexer_remove : Tree → ℕ → Tree
  unfolding query
  memory_indexer_remove t key = elim (avl_search t (query key) cmp_func) [
    | none ↦ t
    | some wrapper ↦ avl_remove t wrapper
  ]

  unfoldable pub memory_indexer_set : Tree → ℕ → ℕ → Tree
  unfolding memory_indexer_remove
  memory_indexer_set t key value =
      avl_insert (memory_indexer_remove t key) (record { key = key; value = value }) cmp_func
