-- ===== src/Interp/Product.antt =====
-- The two words of a product, as the instruction set defines them.
use esp32_tinyemu.Prelude.{
  ℕ, ◌+◌, ◌-◌, ◌*◌, ◌/◌, ◌%◌, ◌^◌, ◌≤◌, ◌<◌, ◌≡◌, inl, inr, Bool, true, not, if◌then◌else◌, arith,
  Bool-cases, ap, ◌∙◌,
}
use native.Mathlib.Nat.{mul-le-mul}
use esp32_tinyemu.Interp.Division.{left_sum, right_sum}
use esp32_tinyemu.Interp.Alu.{
  is_negative, magnitude, sext64, high_product, mulh32, mulhsu32, mulhu32,
}

-- Both words of a 64-bit product, as `mul` and an instruction for the high word give them.
abbrev pub wide : ℕ → ℕ → ℕ
wide high low = high * 2 ^ 32 + low

-- A product of 64 bits from its magnitude and sign.
abbrev pub with_sign : Bool → ℕ → ℕ
with_sign negative p = if negative then (2 ^ 64 - p) % 2 ^ 64 else p

low_word : (p q t : ℕ) → p ≡ q + 2 ^ 32 * t → wide (p % 2 ^ 64 / 2 ^ 32) (q % 2 ^ 32) ≡ p % 2 ^ 64
low_word p q t e = omega (arith, e)

bound : (a b m n : ℕ) → a ≤ m → b ≤ n → a * b ≤ m * n
bound a b m n la lb = mul-le-mul la lb

extended : (a : ℕ) → (t : ℕ) × (sext64 a ≡ a + 2 ^ 32 * t)
extended a = elim (Bool-cases (is_negative a)) [
  | inl n ↦ (2 ^ 32 - 1, rw n (omega arith))
  | inr p ↦ (0, rw p (omega arith))
]

spread :
    (a b t u : ℕ)
    → (a + 2 ^ 32 * t) * (b + 2 ^ 32 * u) ≡ a * b + 2 ^ 32 * (t * b + a * u + 2 ^ 32 * (t * u))
spread a b t u = grind arith

whole_product :
    (a b x y : ℕ)
    → (t : ℕ) × (x ≡ a + 2 ^ 32 * t)
    → (u : ℕ) × (y ≡ b + 2 ^ 32 * u)
    → wide (high_product x y) (a * b % 2 ^ 32) ≡ x * y % 2 ^ 64
whole_product a b x y (t, e) (u, f) =
    low_word (x * y) (a * b) (t * b + a * u + 2 ^ 32 * (t * u))
      (ap (λ z. z * y) e ∙ (ap (λ z. (a + 2 ^ 32 * t) * z) f ∙ spread a b t u))

-- The product of the extended factors, by their magnitudes.
negative_left :
    (x n q : ℕ) → x + n ≡ 2 ^ 64 → n * q ≤ 2 ^ 64 → x * q % 2 ^ 64 ≡ with_sign true (n * q)
negative_left x n q e le = omega (arith, left_sum x n q (2 ^ 64) e)

negative_right :
    (x q n : ℕ) → q + n ≡ 2 ^ 64 → x * n ≤ 2 ^ 64 → x * q % 2 ^ 64 ≡ with_sign true (x * n)
negative_right x q n e le = omega (arith, right_sum x q n (2 ^ 64) e)

negative_both :
    (x y n m : ℕ) → x + n ≡ 2 ^ 64 → y + m ≡ 2 ^ 64 → n * m < 2 ^ 64 → x * y % 2 ^ 64 ≡ n * m
negative_both x y n m e f lt = omega (arith, left_sum x n y (2 ^ 64) e, right_sum n y m (2 ^ 64) f)

-- `mul` and an instruction for the high word give the product of 64 bits: `mulhu` that of two
-- unsigned factors, `mulh` of two signed ones, `mulhsu` of a signed and an unsigned one, which is the
-- product of the magnitudes with the product of the signs.
pub product_lem :
    (a b : ℕ)
    → a < 2 ^ 32
    → b < 2 ^ 32
    → (wide (mulhu32 a b) (a * b % 2 ^ 32) ≡ a * b)
      × (wide (mulh32 a b) (a * b % 2 ^ 32)
          ≡ with_sign
              (if is_negative a then not (is_negative b) else is_negative b)
              (magnitude a * magnitude b))
      × (wide (mulhsu32 a b) (a * b % 2 ^ 32) ≡ with_sign (is_negative a) (magnitude a * b))
unfolding mulhu32 mulh32 mulhsu32
product_lem a b la lb = (
  whole_product a b a b (0, omega arith) (0, omega arith) ∙ omega (arith, small a b la lb),
  whole_product a b (sext64 a) (sext64 b) (extended a) (extended b) ∙ signed,
  whole_product a b (sext64 a) b (extended a) (0, omega arith) ∙ mixed,
)
  where
    small : (x y : ℕ) → x < 2 ^ 32 → y < 2 ^ 32 → x * y < 2 ^ 64
    small x y lx ly = omega (arith, bound x y (2 ^ 32 - 1) (2 ^ 32 - 1) (omega arith) (omega arith))

    mixed : sext64 a * b % 2 ^ 64 ≡ with_sign (is_negative a) (magnitude a * b)
    mixed = elim (Bool-cases (is_negative a)) [
      | inr p ↦ rw p (omega (arith, small a b la lb))
      | inl n ↦
          let low : 2 ^ 31 ≤ a = ground (arith, n) in
          rw n (
            negative_left (a + (2 ^ 64 - 2 ^ 32)) (2 ^ 32 - a) b (omega arith)
              (omega (arith, small (2 ^ 32 - a) b (omega arith) lb)))
    ]

    signed :
        sext64 a * sext64 b % 2 ^ 64
        ≡ with_sign
            (if is_negative a then not (is_negative b) else is_negative b)
            (magnitude a * magnitude b)
    signed = elim (Bool-cases (is_negative a)) [
      | inr p ↦ elim (Bool-cases (is_negative b)) [
        | inr q ↦ rw (p, q) (omega (arith, small a b la lb))
        | inl m ↦
            let low : 2 ^ 31 ≤ b = ground (arith, m) in
            rw (p, m)
              (negative_right a (b + (2 ^ 64 - 2 ^ 32)) (2 ^ 32 - b) (omega arith)
                (omega (arith, small a (2 ^ 32 - b) la (omega arith))))
      ]
      | inl n ↦
          let low : 2 ^ 31 ≤ a = ground (arith, n) in
          elim (Bool-cases (is_negative b)) [
            | inr q ↦
                rw (n, q)
                  (negative_left (a + (2 ^ 64 - 2 ^ 32)) (2 ^ 32 - a) b (omega arith)
                    (omega (arith, small (2 ^ 32 - a) b (omega arith) lb)))
            | inl m ↦
                let low' : 2 ^ 31 ≤ b = ground (arith, m) in
                rw (n, m)
                  (negative_both (a + (2 ^ 64 - 2 ^ 32)) (b + (2 ^ 64 - 2 ^ 32)) (2 ^ 32 - a)
                    (2 ^ 32 - b) (omega arith) (omega arith)
                    (small (2 ^ 32 - a) (2 ^ 32 - b) (omega arith) (omega arith)))
          ]
    ]
