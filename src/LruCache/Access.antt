-- ===== src/LruCache/Access.antt =====
-- `lru_cache_get`: what it answers, and that it
-- keeps the invariant.
use esp32_tinyemu.Prelude.{
  ℕ, ◌+◌, ◌%◌, ◌≡◌, true, ◌==◌, arith, contains, length, size_mod, refl, Bool-cases, inl, inr,
  contains-erase, length-erase,
}
use esp32_tinyemu.LruCache.NodeList.{Libraries}
use esp32_tinyemu.LruCache.{Cache, find_item, hit, lru_cache_get}
use esp32_tinyemu.LruCache.Inv.{IsValid, nodes, lookup}

module _ (lib : Libraries) where
  open lib use {
    avl, IsList, sequence, list_lpush, list_at_last, IsList-lpush, sequence-lpush, IsList-distinct,
    at_last_lem,
  }

  -- A listed item that moves to the front stays listed, with all others.
  lpush_listed :
      {c : Cache lib} (i j : ℕ)
      → IsValid lib c
      → contains (nodes lib c) i ≡ true
      → (contains (sequence (list_lpush c.cache_item_list i)) j ≡ contains (nodes lib c) j)
        × (length (sequence (list_lpush c.cache_item_list i)) ≡ length (nodes lib c))
  unfolding contains
  lpush_listed {c} i j v m = ground (
    arith,
    m,
    v.listed i m,
    sequence-lpush c.cache_item_list i v.list_valid,
    contains-erase i j (nodes lib c),
    length-erase i (nodes lib c) (IsList-distinct c.cache_item_list v.list_valid) m,
  )

  hit-nodes :
      {c : Cache lib} (i j : ℕ)
      → IsValid lib c
      → contains (nodes lib c) i ≡ true
      → (contains (nodes lib (hit lib c i)) j ≡ contains (nodes lib c) j)
        × (length (nodes lib (hit lib c i)) ≡ length (nodes lib c))
        × IsList (hit lib c i).cache_item_list
  unfolding hit
  hit-nodes {c} i j v m = elim (Bool-cases (((c.items i).access + 1) % size_mod % 100 == 0)) [
    | inl e ↦ rw e (
      (lpush_listed i j v m).0,
      (lpush_listed i j v m).1,
      IsList-lpush c.cache_item_list i v.list_valid (v.listed i m).1,
    )
    | inr e ↦ rw e (refl, refl, v.list_valid)
  ]

  -- A hit changes no key and no value.
  hit_items :
      (c : Cache lib) (i j : ℕ)
      → (((hit lib c i).items j).key ≡ (c.items j).key)
        × (((hit lib c i).items j).value ≡ (c.items j).value)
  unfolding hit
  hit_items c i j = ground arith

  hit_find : (c : Cache lib) (i k : ℕ) → find_item lib (hit lib c i) k ≡ find_item lib c k
  unfolding hit find_item
  hit_find c i k = refl

  hit_rest :
      (c : Cache lib) (i : ℕ)
      → ((hit lib c i).number_of_items ≡ c.number_of_items)
        × ((hit lib c i).next_item ≡ c.next_item)
  unfolding hit
  hit_rest c i = (refl, refl)

  hit-IsValid :
      {c : Cache lib} (i : ℕ)
      → IsValid lib c
      → contains (nodes lib c) i ≡ true
      → IsValid lib (hit lib c i)
  hit-IsValid {c} i v m = record {
    list_valid = (hit-nodes i i v m).2;
    found = λ k ne. ground (
      arith,
      ne,
      hit_find c i k,
      hit-nodes i (find_item lib c k) v m,
      hit_items c i (find_item lib c k),
      v.found k,
    );
    listed = λ j mj. ground (
      arith,
      mj,
      hit_items c i j,
      hit-nodes i j v m,
      hit_find c i (c.items j).key,
      hit_rest c i,
      v.listed j,
    );
    count = ground (arith, hit-nodes i i v m, hit_rest c i, v.count);
    next_pos = ground (arith, hit_rest c i, v.next_pos);
  }

  -- A lookup answers the pointer under the key, and keeps the invariant and every pointer, also
  -- where it moves the item to the front.
  pub get_lem :
      {c : Cache lib} (k j : ℕ)
      → IsValid lib c
      → let (value, c') = lru_cache_get lib c k in
        (value ≡ lookup lib c k) × (lookup lib c' j ≡ lookup lib c j)
  unfolding lookup lru_cache_get
  get_lem {c} k j v = elim (Bool-cases (find_item lib c k == 0)) [
    | inl e ↦ ground (arith, e)
    | inr e ↦ ground (
      arith,
      e,
      hit_find c (find_item lib c k) j,
      hit_items c (find_item lib c k) (find_item lib c j),
    )
  ]

  -- A lookup keeps the invariant, whether it finds the key or not.
  pub get-IsValid : {c : Cache lib} (k : ℕ) → IsValid lib c → IsValid lib (lru_cache_get lib c k).1
  unfolding lru_cache_get
  get-IsValid {c} k v = elim (Bool-cases (find_item lib c k == 0)) [
    | inl e ↦ rw e v
    | inr e ↦ rw e (hit-IsValid (find_item lib c k) v (v.found k (ground (arith, e))).0)
  ]

  -- The number of cached pointers does not change by a lookup.
  pub get-length :
      {c : Cache lib} (k : ℕ)
      → IsValid lib c
      → length (nodes lib (lru_cache_get lib c k).1) ≡ length (nodes lib c)
  unfolding lru_cache_get
  get-length {c} k v = elim (Bool-cases (find_item lib c k == 0)) [
    | inl e ↦ rw e
    | inr e ↦ rw e ((hit-nodes (find_item lib c k) 0 v (v.found k (ground (arith, e))).0).1)
  ]
