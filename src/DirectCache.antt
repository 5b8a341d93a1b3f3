-- ===== src/DirectCache.antt =====
-- lib/direct_cache/direct_cache.c: a direct-mapped table from keys to pointers.
pub mod Laws
use esp32_tinyemu.Prelude.{ℕ, ◌+◌, ◌%◌, ◌==◌, if◌then◌else◌, u16}

-- `struct cache_line`
pub record CacheLine : Type 0 where
  pub value : ℕ
  pub key : ℕ

-- `struct _direct_cache_t`: the array as a function of its index. A pointer is a number, and NULL
-- is 0.
pub record DirectCache : Type 0 where
  pub cache : ℕ → CacheLine
  pub cache_size : ℕ

-- The index that `get`, `set` and `remove` compute, a `uint16_t`.
unfoldable pub cell : DirectCache → ℕ → ℕ
cell c key = u16 (key % c.cache_size)

write_line : (ℕ → CacheLine) → ℕ → CacheLine → ℕ → CacheLine
write_line f i l j = if i == j then l else f j

-- `heap` is what malloc left in the array: the values are not initialised.
unfoldable pub direct_cache_init : (ℕ → CacheLine) → ℕ → DirectCache
direct_cache_init heap size = record {
  cache = λ i. record { value = (heap i).value; key = i + 1 };
  cache_size = size;
}

unfoldable pub direct_cache_get : DirectCache → ℕ → ℕ
unfolding cell
direct_cache_get c key =
    let line = c.cache (cell c key) in if line.key == key then line.value else 0

unfoldable pub direct_cache_set : DirectCache → ℕ → ℕ → DirectCache
unfolding cell write_line
direct_cache_set c key value = record c {
  cache = write_line c.cache (cell c key) (record { value = value; key = key });
}

unfoldable pub direct_cache_remove : DirectCache → ℕ → DirectCache
unfolding cell write_line
direct_cache_remove c key = record c {
  cache = write_line c.cache (cell c key) (record { value = 0; key = cell c key + 1 });
}
