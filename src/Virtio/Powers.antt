-- ===== src/Virtio/Powers.antt =====
-- The test of a power of two.
use esp32_tinyemu.Prelude.{
  ℕ, zero, suc, ◌-◌, ◌*◌, ◌/◌, ◌%◌, ◌^◌, ◌<◌, ◌≡◌, inl, inr, ◌==◌, arith, ap, ◌∙◌, sym, bit,
  bit_zero, bit-and, digit, zero_bits, double, word_and, size_sub, Bool-cases,
}

-- A number that has no bit in common with its predecessor.
power_digits :
    (n v : ℕ)
    → v < 2 ^ n
    → 0 < v
    → ((k : ℕ) → k < n → bit v k * bit (v - 1) k ≡ 0)
    → (k : ℕ) × (v ≡ 2 ^ k)
unfolding bit
power_digits zero v lt pos h = absurd (omega arith)
power_digits (suc n) v lt pos h = elim (Bool-cases (v % 2 == 0)) [
  | inl even ↦
      let e : v % 2 ≡ 0 = ground (arith, even) in
      let half : (v - 1) / 2 ≡ v / 2 - 1 = omega arith in
      let rest =
        power_digits n (v / 2) (omega (arith, double n)) (omega arith)
          (λ k l. ap (λ (t : ℕ). bit (v / 2) k * bit t k) (sym half) ∙ h (suc k) (omega arith)) in
      (suc rest.0, omega (arith, rest.1, double rest.0))
  | inr odd ↦
      let e : v % 2 ≡ 1 = ground (arith, odd) in
      let half : (v - 1) / 2 ≡ v / 2 = omega arith in
      let none_left : v / 2 ≡ 0 = zero_bits n (v / 2) (omega (arith, double n)) (λ k l. ground (
        arith,
        digit (v / 2) k,
        ap (λ (t : ℕ). bit (v / 2) k * bit t k) (sym half) ∙ h (suc k) (omega arith),
      )) in
      (0, omega arith)
]

pub power_of_two :
    (v : ℕ) → v < 2 ^ 32 → 0 < v → word_and v (size_sub v 1) ≡ 0 → (k : ℕ) × (v ≡ 2 ^ k)
power_of_two v lt pos e = power_digits 32 v lt pos (λ k l.
    ap (λ (t : ℕ). bit v k * bit t k) (before lt pos)
    ∙ (sym (bit-and v (size_sub v 1) k l) ∙ (ap (λ (t : ℕ). bit t k) e ∙ bit_zero k)))
  where
    before : v < 2 ^ 32 → 0 < v → v - 1 ≡ size_sub v 1
    before lt pos = omega arith
