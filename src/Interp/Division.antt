-- ===== src/Interp/Division.antt =====
-- The quotient and the remainder, as the instruction set defines them.
use esp32_tinyemu.Prelude.{
  ℕ, zero, suc, ◌+◌, ◌-◌, ◌*◌, ◌/◌, ◌%◌, ◌^◌, ◌≤◌, ◌<◌, ◌≡◌, ◌≢◌, ◌⊎◌, inl, inr, false, ◌&&◌, ◌==◌,
  arith, Bool-cases, ap, ◌∙◌, refl,
}
use native.Mathlib.Nat.{div-add-mod, div-le_self, mod-lt}
use esp32_tinyemu.Interp.Alu.{
  is_negative, negate, magnitude, quotient, remainder, div32, divu32, rem32, remu32,
}

pub left_sum : (n m q w : ℕ) → n + m ≡ w → n * q + m * q ≡ w * q
left_sum n m q w e = distribute ∙ ap (λ t. t * q) e
  where
    distribute : n * q + m * q ≡ (n + m) * q
    distribute = grind arith

pub right_sum : (b n m w : ℕ) → n + m ≡ w → b * n + b * m ≡ w * b
right_sum b n m w e = distribute ∙ ap (λ t. t * b) e
  where
    distribute : b * n + b * m ≡ (n + m) * b
    distribute = grind arith

-- A product with a negated factor is the negated product.
mul-negate : (b q : ℕ) → q < 2 ^ 32 → (t : ℕ) × (b * negate q + b * q ≡ 2 ^ 32 * t)
mul-negate b zero lt = (0, grind arith)
mul-negate b (suc q) lt = (b, right_sum b (negate (suc q)) (suc q) (2 ^ 32) (omega arith))

signed_identity :
    (a b : ℕ) → a < 2 ^ 32 → b < 2 ^ 32 → b ≢ 0 → (b * quotient a b + remainder a b) % 2 ^ 32 ≡ a
signed_identity a b la lb nb = elim (Bool-cases (is_negative a)) [
  | inr pa ↦ elim (Bool-cases (is_negative b)) [
    | inr bp ↦ rw (pa, bp) (omega (arith, div-add-mod a b))
    | inl bn ↦
        let n = 2 ^ 32 - b in
        let (t, e) = mul-negate b (a / n) (omega (arith, div-le_self a n)) in
        rw (pa, bn) (omega (arith, e, div-add-mod a n, left_sum n b (a / n) (2 ^ 32) (omega arith)))
  ]
  | inl an ↦ elim (Bool-cases (is_negative b)) [
    | inr bp ↦
        let p = 2 ^ 32 - a in
        let low : 2 ^ 31 ≤ a = ground (arith, an) in
        let (t, e) = mul-negate b (p / b) (omega (arith, div-le_self p b)) in
        rw (an, bp) (omega (arith, e, div-add-mod p b))
    | inl bn ↦
        let p = 2 ^ 32 - a in
        let n = 2 ^ 32 - b in
        rw (an, bn) (omega (arith, div-add-mod p n, left_sum n b (p / n) (2 ^ 32) (omega arith)))
  ]
]

remainder_bound :
    (a b : ℕ)
    → a < 2 ^ 32
    → b < 2 ^ 32
    → b ≢ 0
    → (magnitude (remainder a b) < magnitude b)
      × ((remainder a b ≡ 0) ⊎ (is_negative (remainder a b) ≡ is_negative a))
remainder_bound a b la lb nb =
    let m = magnitude b in
    let positive : 0 < m = ground arith in
    let small : m < 2 ^ 31 + 1 = ground arith in
    let less : magnitude a % m < m = mod-lt (magnitude a) positive in
    elim (Bool-cases (is_negative a)) [
      | inr pa ↦ rw pa (ground (arith, less, small))
      | inl an ↦ rw an (ground (arith, less, small))
    ]

overflow : (a b : ℕ) → a ≡ 2 ^ 31 → b ≡ 2 ^ 32 - 1 → b * a % 2 ^ 32 ≡ a
overflow a b ea eb = rw (ea, eb) refl

-- For all words, divisor times quotient plus remainder is the dividend: `div` with `rem`, of signed
-- numbers and with the wrap-around of 32 bits, and `divu` with `remu`, also where the divisor is 0.
-- Where it is not, the remainder is less than the divisor in magnitude, and that of `rem` is 0 or has
-- the sign of the dividend.
pub division_lem :
    (a b : ℕ)
    → a < 2 ^ 32
    → b < 2 ^ 32
    → ((b * div32 a b + rem32 a b) % 2 ^ 32 ≡ a)
      × ((b * divu32 a b + remu32 a b) ≡ a)
      × ((b ≡ 0)
          ⊎ ((magnitude (rem32 a b) < magnitude b)
              × ((rem32 a b ≡ 0) ⊎ (is_negative (rem32 a b) ≡ is_negative a))
              × (remu32 a b < b)))
unfolding div32 divu32 rem32 remu32
division_lem a zero la lb = (omega arith, omega arith, inl refl)
division_lem a (suc b) la lb =
    let nz : (suc b == 0) ≡ false = ground arith in
    elim (Bool-cases ((a == 2 ^ 31) && (suc b == 2 ^ 32 - 1))) [
      | inl over ↦
          let ea : a ≡ 2 ^ 31 = ground (arith, over) in
          let eb : suc b ≡ 2 ^ 32 - 1 = ground (arith, over) in
          rw (div32, rem32, divu32, remu32, nz, over)
            (
              omega (arith, overflow a (suc b) ea eb),
              div-add-mod a (suc b),
              inr (ground arith, inl refl, mod-lt a (omega arith)),
            )
      | inr fits ↦
          let bound = remainder_bound a (suc b) la lb (λ z. omega (arith, z)) in
          rw (div32, rem32, divu32, remu32, nz, fits)
            (
              signed_identity a (suc b) la lb (λ z. omega (arith, z)),
              div-add-mod a (suc b),
              inr (bound.0, bound.1, mod-lt a (omega arith)),
            )
    ]
