-- ===== src/DirectCache/Laws.antt =====
-- What a client of direct_cache.c may rely on.
use esp32_tinyemu.Prelude.{
  ℕ, zero, suc, ◌+◌, ◌*◌, ◌/◌, ◌%◌, ◌≤◌, ◌≡◌, ◌≢◌, ◌⊎◌, inl, inr, refl, ◌==◌, if◌then◌else◌, u16,
  arith,
}
use esp32_tinyemu.DirectCache.{
  CacheLine, DirectCache, cell, direct_cache_init, direct_cache_get, direct_cache_set,
  direct_cache_remove,
}

-- No key falls into the line whose marker it equals.
marker-ne : (size key : ℕ) → 2 ≤ size → u16 (key % size) + 1 ≢ key
marker-ne size key h e = grind (arith, multiple (key / size))
  where
    multiple : (q : ℕ) → (q ≡ 0) ⊎ (size ≤ size * q)
    multiple zero = inl refl
    multiple (suc q) = inr (grind arith)

-- A fresh table of at least two lines answers NULL for every key, whatever malloc left in the
-- values: no key falls into the line whose marker it equals.
pub get-init :
    (heap : ℕ → CacheLine) (size key : ℕ)
    → 2 ≤ size
    → direct_cache_get (direct_cache_init heap size) key ≡ 0
unfolding direct_cache_get direct_cache_init
get-init heap size key h = ground (arith, marker-ne size key h)

-- After a store every key that falls into the written line answers the new value if it is the
-- stored key, and NULL otherwise; the other keys answer as before.
pub get-set :
    (c : DirectCache) (k v j : ℕ)
    → direct_cache_get (direct_cache_set c k v) j
      ≡ (if k == j then v else if cell c k == cell c j then 0 else direct_cache_get c j)
unfolding direct_cache_get direct_cache_set
get-set c k v j = ground arith

-- After a removal every key that falls into the line of the removed key answers NULL, and the
-- other keys answer as before.
pub get-remove :
    (c : DirectCache) (k j : ℕ)
    → 2 ≤ c.cache_size
    → direct_cache_get (direct_cache_remove c k) j
      ≡ (if cell c k == cell c j then 0 else direct_cache_get c j)
unfolding direct_cache_get direct_cache_remove
get-remove c k j h = ground (arith, marker-ne c.cache_size j h)

-- The number of lines never changes.
pub size-init : (heap : ℕ → CacheLine) (size : ℕ) → (direct_cache_init heap size).cache_size ≡ size
unfolding direct_cache_init
size-init heap size = refl

pub size-set : (c : DirectCache) (k v : ℕ) → (direct_cache_set c k v).cache_size ≡ c.cache_size
unfolding direct_cache_set
size-set c k v = refl

pub size-remove : (c : DirectCache) (k : ℕ) → (direct_cache_remove c k).cache_size ≡ c.cache_size
unfolding direct_cache_remove
size-remove c k = refl
