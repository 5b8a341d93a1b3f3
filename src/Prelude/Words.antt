-- ===== src/Prelude/Words.antt =====
-- `size_t` arithmetic of the ESP32 target, 32 bits wide, with its wrap-around.
use Prim.Native.Nat.{ℕ, suc, ◌+◌, ◌-◌, ◌*◌, ◌%◌, ◌^◌, ◌≤◌, ◌<◌}
use mathlib.Core.Logic.{◌≢◌, ◌⊎◌, inl, inr}
use native.Mathlib.Omega.{arith}
use native.Mathlib.Nat.{mul-le-mul_right}

abbrev pub size_mod : ℕ
size_mod = 2 ^ 32

abbrev pub size_add : ℕ → ℕ → ℕ
size_add a b = (a + b) % size_mod

abbrev pub size_sub : ℕ → ℕ → ℕ
size_sub a b = (a + size_mod - b) % size_mod

abbrev pub size_mul : ℕ → ℕ → ℕ
size_mul a b = (a * b) % size_mod

-- `(uint16_t)x`
abbrev pub u16 : ℕ → ℕ
u16 x = x % 2 ^ 16

lt-cases : (a b : ℕ) → a ≢ b → (a < b) ⊎ (b < a)
lt-cases a b ne = ground arith

-- A block of `size` bytes lies before or behind another one.
pub blocks_apart :
    (b c size : ℕ) → b ≢ c → (b * size + size ≤ c * size) ⊎ (c * size + size ≤ b * size)
blocks_apart b c size ne = elim (lt-cases b c ne) [
  | inl lt ↦ inl (omega (arith, mul-le-mul_right {m = suc b} {n = c} size lt))
  | inr gt ↦ inr (omega (arith, mul-le-mul_right {m = suc c} {n = b} size gt))
]
