-- ===== src/MemoryIndexer/Avl.antt =====
-- The ordered tree that lib/memory_indexer/memory_indexer.c calls, as a parameter.
use esp32_tinyemu.Prelude.{ℕ, Option, none, some, ◌≡◌, if◌then◌else◌, ltb}

-- `struct memory_wrapper`; its `avl` member belongs to the tree.
pub record MemoryWrapper : Type 0 where
  pub key : ℕ
  pub value : ℕ

-- The three answers of a comparison function: -1, 0 and 1.
pub data Comparison : Type 0 where
  less equal greater : Comparison

abbrev pub cmp_func : MemoryWrapper → MemoryWrapper → Comparison
cmp_func a b = if ltb a.key b.key then less else if ltb b.key a.key then greater else equal

-- lib/avltree/avltree.h, as its readme documents it, for a tree that is only used with `cmp_func`:
-- a search finds the node that compares equal (so only the comparison matters), an insertion of a node that compares equal to none
-- adds it, and a removal takes the node out.
pub record AvlTree : Type 1 where
  pub Tree : Type 0
  pub avl_init : Tree
  pub avl_search :
      Tree → MemoryWrapper → (MemoryWrapper → MemoryWrapper → Comparison) → Option MemoryWrapper
  pub avl_insert : Tree → MemoryWrapper → (MemoryWrapper → MemoryWrapper → Comparison) → Tree
  pub avl_remove : Tree → MemoryWrapper → Tree
  pub search-same :
      (t : Tree) (q r : MemoryWrapper)
      → cmp_func q r ≡ equal
      → avl_search t q cmp_func ≡ avl_search t r cmp_func
  pub search-init : (q : MemoryWrapper) → avl_search avl_init q cmp_func ≡ none
  pub search-insert :
      (t : Tree) (w q : MemoryWrapper)
      → avl_search t w cmp_func ≡ none
      → avl_search (avl_insert t w cmp_func) q cmp_func
        ≡ elim (cmp_func w q) [ equal ↦ some w | _ ↦ avl_search t q cmp_func ]
  pub search-remove :
      (t : Tree) (r w q : MemoryWrapper)
      → avl_search t r cmp_func ≡ some w
      → avl_search (avl_remove t w) q cmp_func
        ≡ elim (cmp_func r q) [ equal ↦ none | _ ↦ avl_search t q cmp_func ]
