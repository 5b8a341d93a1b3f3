-- ===== src/Tests/Instance.antt =====
-- Concrete libraries that meet the laws which the caches rely on: a tree as the list of its nodes,
-- and a list as the sequence of its nodes.
use esp32_tinyemu.Prelude.{
  ℕ, ◌≡◌, refl, Option, none, some, List, [], ◌∷◌, ◌==◌, if◌then◌else◌, arith, erase, last_or,
  Distinct, erase-Distinct, contains-erase,
}
use esp32_tinyemu.MemoryIndexer.Avl.{MemoryWrapper, Comparison, equal, AvlTree, cmp_func}
use esp32_tinyemu.LruCache.NodeList.{NodeList, Libraries}

pub find_node :
    List MemoryWrapper
    → MemoryWrapper
    → (MemoryWrapper → MemoryWrapper → Comparison)
    → Option MemoryWrapper
find_node [] q cmp = none
find_node (w ∷ ws) q cmp = elim (cmp w q) [ equal ↦ some w | _ ↦ find_node ws q cmp ]

-- Every node with the key of `w` goes.
pub drop_node : List MemoryWrapper → MemoryWrapper → List MemoryWrapper
drop_node [] w = []
drop_node (x ∷ xs) w = if x.key == w.key then drop_node xs w else x ∷ drop_node xs w

pub find_same :
    (t : List MemoryWrapper) (q r : MemoryWrapper)
    → cmp_func q r ≡ equal
    → find_node t q cmp_func ≡ find_node t r cmp_func
unfolding find_node
find_same [] q r e = refl
find_same (w ∷ ws) q r e = ground (arith, find_same ws q r e)

pub find_insert :
    (t : List MemoryWrapper) (w q : MemoryWrapper)
    → find_node t w cmp_func ≡ none
    → find_node (w ∷ t) q cmp_func
      ≡ elim (cmp_func w q) [ equal ↦ some w | _ ↦ find_node t q cmp_func ]
unfolding find_node
find_insert t w q e = ground arith

pub find_key :
    (t : List MemoryWrapper) (r w : MemoryWrapper) → find_node t r cmp_func ≡ some w → w.key ≡ r.key
unfolding find_node
find_key [] r w e = absurd (ground arith)
find_key (x ∷ xs) r w e = ground (arith, e, find_key xs r w)

pub find_drop :
    (t : List MemoryWrapper) (r w q : MemoryWrapper)
    → w.key ≡ r.key
    → find_node (drop_node t w) q cmp_func
      ≡ elim (cmp_func r q) [ equal ↦ none | _ ↦ find_node t q cmp_func ]
unfolding find_node drop_node
find_drop [] r w q e = ground arith
find_drop (x ∷ xs) r w q e = ground (arith, e, find_drop xs r w q e)

pub push-Distinct : (l : List ℕ) (n : ℕ) → Distinct l → Distinct (n ∷ erase n l)
push-Distinct l n d = (ground (arith, contains-erase n n l), erase-Distinct n l d)

pub search_empty : (q : MemoryWrapper) → find_node [] q cmp_func ≡ none
unfolding find_node
search_empty q = refl

abbrev pub list_tree : AvlTree
list_tree = record {
  Tree = List MemoryWrapper;
  avl_init = [];
  avl_search = find_node;
  avl_insert = λ t w cmp. w ∷ t;
  avl_remove = drop_node;
  search-same = find_same;
  search-init = search_empty;
  search-insert = find_insert;
  search-remove = λ t r w q e. find_drop t r w q (find_key t r w e);
}

abbrev pub plain_list : NodeList
plain_list = record {
  Nodes = List ℕ;
  IsList = Distinct;
  sequence = λ l. l;
  list_new = [];
  list_lpush = λ l n. n ∷ erase n l;
  list_rpop = λ l. (last_or l 0, erase (last_or l 0) l);
  list_remove = λ l n. erase n l;
  list_at_last = λ l. last_or l 0;
  list_iterate = λ l. l;
  IsList-new = tt;
  sequence-new = refl;
  IsList-distinct = λ l d. d;
  IsList-lpush = λ l n d ne. push-Distinct l n d;
  sequence-lpush = λ l n d ne. refl;
  IsList-remove = λ l n d m. erase-Distinct n l d;
  sequence-remove = λ l n d m. refl;
  at_last_lem = λ l d. refl;
  rpop-last = λ l d. refl;
  IsList-rpop = λ l d. erase-Distinct (last_or l 0) l d;
  sequence-rpop = λ l d. refl;
  iterate_lem = λ l d. refl;
}

abbrev pub libraries : Libraries
libraries = record { avl = list_tree; list = plain_list }
