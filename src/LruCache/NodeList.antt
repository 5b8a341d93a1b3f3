-- ===== src/LruCache/NodeList.antt =====
-- The linked list that lib/lru_cache/lru_cache.c calls, lib/list, a copy of another project's
-- library, as a parameter; and with the tree of the indexer, all that the caches take from others.
use esp32_tinyemu.Prelude.{ℕ, true, List, [], ◌∷◌, ◌≡◌, ◌≢◌, Distinct, contains, erase, last_or}
use esp32_tinyemu.MemoryIndexer.Avl.{AvlTree}

-- lib/list/llist.h. `sequence` lists the addresses of the nodes from the head to the tail; NULL
-- (0) is no node. The laws are what its comments document: `list_lpush` puts a node first, also
-- one that is already in the list, `list_remove` takes a node out, `list_rpop` detaches the last
-- node, `list_at` with -1 returns it, and an iterator from LIST_HEAD returns the nodes in order.
pub record NodeList : Type 1 where
  pub Nodes : Type 0
  pub IsList : Nodes → Type 0
  pub sequence : Nodes → List ℕ
  pub list_new : Nodes
  pub list_lpush : Nodes → ℕ → Nodes
  pub list_rpop : Nodes → ℕ × Nodes
  pub list_remove : Nodes → ℕ → Nodes
  pub list_at_last : Nodes → ℕ
  pub list_iterate : Nodes → List ℕ
  pub IsList-new : IsList list_new
  pub sequence-new : sequence list_new ≡ []
  pub IsList-distinct : (l : Nodes) → IsList l → Distinct (sequence l)
  pub IsList-lpush : (l : Nodes) (n : ℕ) → IsList l → n ≢ 0 → IsList (list_lpush l n)
  pub sequence-lpush :
      (l : Nodes) (n : ℕ) → IsList l → n ≢ 0 → sequence (list_lpush l n) ≡ n ∷ erase n (sequence l)
  pub IsList-remove :
      (l : Nodes) (n : ℕ) → IsList l → contains (sequence l) n ≡ true → IsList (list_remove l n)
  pub sequence-remove :
      (l : Nodes) (n : ℕ)
      → IsList l
      → contains (sequence l) n ≡ true
      → sequence (list_remove l n) ≡ erase n (sequence l)
  pub at_last_lem : (l : Nodes) → IsList l → list_at_last l ≡ last_or (sequence l) 0
  pub rpop-last : (l : Nodes) → IsList l → (list_rpop l).0 ≡ last_or (sequence l) 0
  pub IsList-rpop : (l : Nodes) → IsList l → IsList (list_rpop l).1
  pub sequence-rpop :
      (l : Nodes)
      → IsList l
      → sequence (list_rpop l).1 ≡ erase (last_or (sequence l) 0) (sequence l)
  pub iterate_lem : (l : Nodes) → IsList l → list_iterate l ≡ sequence l

pub record Libraries : Type 1 where
  pub avl : AvlTree
  pub list : NodeList
  pub open list use *
