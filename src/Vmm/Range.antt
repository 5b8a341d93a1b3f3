-- ===== src/Vmm/Range.antt =====
-- Addresses within whole pages of the file, and the place of an address in its page.
use esp32_tinyemu.Prelude.{ℕ, suc, ◌+◌, ◌*◌, ◌/◌, ◌%◌, ◌≤◌, ◌<◌, ◌≡◌, arith, size_mod, ap}
use native.Mathlib.Nat.{mul-le-mul_right, div-add-mod', div-eq_of_lt-le, div-lt_iff_lt-mul}
use esp32_tinyemu.LruCache.NodeList.{Libraries}
use esp32_tinyemu.Vmm.{Vmm}
use esp32_tinyemu.Vmm.GetPage.{IsCovered}

-- The first `count` pages lie within the address space and the file.
pub record HoldsPages {lib : Libraries} (size count : ℕ) (v : Vmm lib) : Type 0 where
  pub addressable : count * size < size_mod
  pub stored : count * size ≤ v.backing.backing_store.size

number_lt : (a size count : ℕ) → 0 < size → a < count * size → a / size < count
number_lt a size count p h = (div-lt_iff_lt-mul p).1 h

pub division_bound :
    {lib : Libraries} {v : Vmm lib} {size count : ℕ} (a : ℕ)
    → HoldsPages size count v
    → 0 < size
    → a < count * size
    → IsCovered size v (a / size)
division_bound {v = v} {size} {count} a h p lt =
    omega
      (arith, mul-le-mul_right {m = suc (a / size)} {n = count} size (number_lt a size count p lt))

-- Behind an address, up to the end of its page, the page stays and the offset grows.
pub same_page :
    (a d size : ℕ)
    → 0 < size
    → a % size + d < size
    → ((a + d) / size ≡ a / size) × ((a + d) % size ≡ a % size + d)
same_page a d size p h = (quotient, remainder)
  where
    quotient : (a + d) / size ≡ a / size
    quotient =
        div-eq_of_lt-le size (omega (arith, div-add-mod' a size))
          (omega (arith, div-add-mod' a size))

    remainder : (a + d) % size ≡ a % size + d
    remainder =
        omega
          (arith, div-add-mod' a size, div-add-mod' (a + d) size, ap (λ (t : ℕ). t * size) quotient)
