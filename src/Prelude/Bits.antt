-- ===== src/Prelude/Bits.antt =====
-- The bit operations of `uint32_t`, digit by digit, and what each does to a bit.
use Prim.Native.Nat.{ℕ, zero, suc, ◌+◌, ◌-◌, ◌*◌, ◌/◌, ◌%◌, ◌^◌, ◌<◌}
use mathlib.Core.Path.{◌≡◌, refl, ap, ◌∙◌, sym}
use mathlib.Core.Logic.{◌⊎◌}
use native.Mathlib.Nat.{div-div-eq-div-mul}
use native.Mathlib.Omega.{arith}
use esp32_tinyemu.Prelude.Tests.{◌==◌, if◌then◌else◌}

-- `(x >> k) & 1`
unfoldable pub bit : ℕ → ℕ → ℕ
bit x zero = x % 2
bit x (suc k) = bit (x / 2) k

-- The number of `n` binary digits whose digits are those of `x` and `y` under `f`.
unfoldable pub digits : (ℕ → ℕ → ℕ) → ℕ → ℕ → ℕ → ℕ
digits f zero x y = 0
digits f (suc n) x y = f (x % 2) (y % 2) % 2 + 2 * digits f n (x / 2) (y / 2)

unfoldable pub word_and : ℕ → ℕ → ℕ
word_and x y = digits (λ a b. a * b) 32 x y

unfoldable pub word_or : ℕ → ℕ → ℕ
word_or x y = digits (λ a b. a + b - a * b) 32 x y

unfoldable pub word_xor : ℕ → ℕ → ℕ
word_xor x y = digits (λ a b. a + b) 32 x y

unfoldable pub word_not : ℕ → ℕ
word_not x = digits (λ a _. 1 - a) 32 x 0

-- `1 << k`
abbrev pub single : ℕ → ℕ
single k = 2 ^ k

pub bit_lt : (x k : ℕ) → bit x k < 2
unfolding bit
bit_lt x zero = omega arith
bit_lt x (suc k) = bit_lt (x / 2) k

pub digit : (x k : ℕ) → (bit x k ≡ 0) ⊎ (bit x k ≡ 1)
digit x k = ground (arith, bit_lt x k)

pub bit_zero : (k : ℕ) → bit 0 k ≡ 0
unfolding bit
bit_zero zero = refl
bit_zero (suc k) = bit_zero k

bit-digits :
    (f : ℕ → ℕ → ℕ) (n x y k : ℕ) → k < n → bit (digits f n x y) k ≡ f (bit x k) (bit y k) % 2
unfolding bit digits
bit-digits f zero x y k lt = absurd (omega arith)
bit-digits f (suc n) x y zero lt = ground arith
bit-digits f (suc n) x y (suc k) lt =
    ap (λ t. bit t k) (half (f (x % 2) (y % 2) % 2) (digits f n (x / 2) (y / 2)) (omega arith))
    ∙ bit-digits f n (x / 2) (y / 2) k (omega arith)
  where
    half : (a b : ℕ) → a < 2 → (a + 2 * b) / 2 ≡ b
    half a b lt' = omega arith

pub bit-and : (x y k : ℕ) → k < 32 → bit (word_and x y) k ≡ bit x k * bit y k
unfolding word_and
bit-and x y k lt = grind (arith, bit-digits (λ a b. a * b) 32 x y k lt, digit x k, digit y k)

pub bit-or : (x y k : ℕ) → k < 32 → bit (word_or x y) k ≡ bit x k + bit y k - bit x k * bit y k
unfolding word_or
bit-or x y k lt = grind (arith, bit-digits (λ a b. a + b - a * b) 32 x y k lt, digit x k, digit y k)

pub bit-not : (x k : ℕ) → k < 32 → bit (word_not x) k ≡ 1 - bit x k
unfolding word_not
bit-not x k lt = grind (arith, bit-digits (λ a _. 1 - a) 32 x 0 k lt, digit x k)

pub bit-single : (i k : ℕ) → bit (single i) k ≡ (if i == k then 1 else 0)
unfolding bit
bit-single zero zero = refl
bit-single zero (suc k) = ground (arith, bit_zero k)
bit-single (suc i) zero = ground arith
bit-single (suc i) (suc k) =
    let half : single (suc i) / 2 ≡ single i = omega (arith, power i) in
    ap (λ t. bit t k) half ∙ ground (arith, bit-single i k)
  where
    power : (n : ℕ) → 2 ^ suc n ≡ 2 * 2 ^ n
    power n = grind arith

-- A number is zero if none of its digits is set.
pub zero_bits : (n x : ℕ) → x < 2 ^ n → ((k : ℕ) → k < n → bit x k ≡ 0) → x ≡ 0
unfolding bit
zero_bits zero x lt h = omega arith
zero_bits (suc n) x lt h =
    let low : x % 2 ≡ 0 = h zero (omega arith) in
    let high : x / 2 ≡ 0 = zero_bits n (x / 2) (omega arith) (λ k l. h (suc k) (omega arith)) in
    omega arith

two_digits : (p i : ℕ) → p < 4 → bit p i ≡ (if i == 0 then p % 2 else if i == 1 then p / 2 else 0)
unfolding bit
two_digits p zero lt = ground arith
two_digits p (suc zero) lt = ground arith
two_digits p (suc (suc i)) lt = rw (none_left) (bit_zero i ∙ ground arith)
  where
    none_left : p / 2 / 2 ≡ 0
    none_left = omega arith

doubled : (p n : ℕ) → p * single (suc n) ≡ 2 * (p * single n)
doubled p n = grind arith

-- The bits of a field of two bits at bit `n`.
pub bit-field :
    (p n k : ℕ)
    → p < 4
    → bit (p * single n) k ≡ (if k == n then p % 2 else if k == n + 1 then p / 2 else 0)
unfolding bit
bit-field p zero k lt = rw (one) (two_digits p k lt)
  where
    one : p * single 0 ≡ p
    one = omega arith
bit-field p (suc n) zero lt = ground (arith, doubled p n)
bit-field p (suc n) (suc k) lt =
    let half : p * single (suc n) / 2 ≡ p * single n = omega (arith, doubled p n) in
    ap (λ t. bit t k) half ∙ ground (arith, bit-field p n k lt)

pub double : (n : ℕ) → 2 ^ suc n ≡ 2 * 2 ^ n
double n = grind arith

pub positive : (n : ℕ) → 0 < 2 ^ n
positive zero = omega arith
positive (suc n) = omega (arith, double n, positive n)

pub ones : (n k : ℕ) → k < n → bit (2 ^ n - 1) k ≡ 1
unfolding bit
ones zero k lt = absurd (omega arith)
ones (suc n) zero lt = omega (arith, double n, positive n)
ones (suc n) (suc k) lt =
    let half : (2 ^ suc n - 1) / 2 ≡ 2 ^ n - 1 = omega (arith, double n, positive n) in
    ap (λ t. bit t k) half ∙ ones n k (omega arith)

digits_lt : (f : ℕ → ℕ → ℕ) (n x y : ℕ) → digits f n x y < 2 ^ n
unfolding digits
digits_lt f zero x y = omega arith
digits_lt f (suc n) x y = omega (arith, digits_lt f n (x / 2) (y / 2), double n)

pub and_lt : (x y : ℕ) → word_and x y < 2 ^ 32
unfolding word_and
and_lt x y = digits_lt (λ a b. a * b) 32 x y

pub bit-shift : (x k : ℕ) → bit x k ≡ x / 2 ^ k % 2
unfolding bit
bit-shift x zero = omega arith
bit-shift x (suc k) =
    bit-shift (x / 2) k
    ∙ ap (λ t. t % 2) (div-div-eq-div-mul x 2 (2 ^ k) ∙ ap (λ t. x / t) (sym (double k)))

pub or_lt : (x y : ℕ) → word_or x y < 2 ^ 32
unfolding word_or
or_lt x y = digits_lt (λ a b. a + b - a * b) 32 x y

pub xor_lt : (x y : ℕ) → word_xor x y < 2 ^ 32
unfolding word_xor
xor_lt x y = digits_lt (λ a b. a + b) 32 x y
