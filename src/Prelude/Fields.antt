-- ===== src/Prelude/Fields.antt =====
-- Bits of a number in parts: a high part above a low one, and words that agree in every bit.
use Prim.Native.Nat.{ℕ, zero, suc, ◌+◌, ◌-◌, ◌*◌, ◌/◌, ◌%◌, ◌^◌, ◌≤◌, ◌<◌}
use mathlib.Core.Path.{◌≡◌, ap, ◌∙◌, sym}
use mathlib.Core.Logic.{inl, inr}
use native.Mathlib.Nat.{div-add-mod', mod-lt}
use native.Mathlib.Omega.{arith}
use esp32_tinyemu.Prelude.Tests.{if◌then◌else◌, ltb, Bool-cases}
use esp32_tinyemu.Prelude.Bits.{bit, bit_zero, ones, double, positive}

-- Numbers of `n` digits are equal if their digits are.
pub same_bits : (n x y : ℕ) → x < 2 ^ n → y < 2 ^ n → ((k : ℕ) → k < n → bit x k ≡ bit y k) → x ≡ y
unfolding bit
same_bits zero x y l m h = omega arith
same_bits (suc n) x y l m h =
    let low : x % 2 ≡ y % 2 = h zero (omega arith) in
    let high : x / 2 ≡ y / 2 =
      same_bits n (x / 2) (y / 2) (omega (arith, double n)) (omega (arith, double n))
        (λ k lt. h (suc k) (omega arith)) in
    omega arith

twice : (q s : ℕ) → q * 2 ^ suc s ≡ 2 * (q * 2 ^ s)
twice q s = grind (arith, double s)

pub bit-join :
    (s q r k : ℕ) → r < 2 ^ s → bit (q * 2 ^ s + r) k ≡ (if ltb k s then bit r k else bit q (k - s))
unfolding bit
bit-join zero q r k lt = ap (λ t. bit t k) only ∙ ground arith
  where
    only : q * 2 ^ 0 + r ≡ q
    only = omega arith
bit-join (suc s) q r zero lt = ground (arith, twice q s)
bit-join (suc s) q r (suc k) lt =
    let half : (q * 2 ^ suc s + r) / 2 ≡ q * 2 ^ s + r / 2 = omega (arith, twice q s) in
    ap (λ t. bit t k) half ∙ (bit-join s q (r / 2) k (omega (arith, double s)) ∙ ground arith)

pub bit_high : (s x k : ℕ) → x < 2 ^ s → s ≤ k → bit x k ≡ 0
bit_high s x k lt le =
    ap (λ t. bit t k) (alone (2 ^ s)) ∙ (bit-join s 0 x k lt ∙ ground (arith, bit_zero (k - s)))
  where
    alone : (p : ℕ) → x ≡ 0 * p + x
    alone p = omega arith

parts : (s y j : ℕ) → bit y j ≡ (if ltb j s then bit (y % 2 ^ s) j else bit (y / 2 ^ s) (j - s))
parts s y j =
    ap (λ t. bit t j) (sym (div-add-mod' y (2 ^ s)))
    ∙ bit-join s (y / 2 ^ s) (y % 2 ^ s) j (mod-lt y (positive s))

-- The digits of a remainder and of a quotient by a power of two, and of its mask.
pub bit-mod : (s x k : ℕ) → bit (x % 2 ^ s) k ≡ (if ltb k s then bit x k else 0)
bit-mod s x k = elim (Bool-cases (ltb k s)) [
  | inl e ↦ ground (arith, e, parts s x k)
  | inr e ↦ ground (arith, e, bit_high s (x % 2 ^ s) k (mod-lt x (positive s)))
]

pub bit-div : (s x k : ℕ) → s ≤ k → bit (x / 2 ^ s) (k - s) ≡ bit x k
bit-div s x k le = ground (arith, parts s x k)

-- `2 ^ s - 1` as a mask.
pub bit-mask : (s k : ℕ) → bit (2 ^ s - 1) k ≡ (if ltb k s then 1 else 0)
bit-mask s k = ground (arith, ones s k, bit_high s (2 ^ s - 1) k (omega (arith, positive s)))
