-- ===== src/Interp/Values.antt =====
-- The values of the integer instructions are words of 32 bits.
use esp32_tinyemu.Prelude.{
  ℕ, zero, suc, ◌+◌, ◌-◌, ◌%◌, ◌^◌, ◌≤◌, ◌<◌, inl, inr, Bool, true, false, ◌==◌, if◌then◌else◌, ltb,
  Option, none, some, arith, Bool-cases, bit, word_and, word_or, word_not, or_lt, and_lt, xor_lt,
  positive,
}
use native.Mathlib.Nat.{div-le_self, le-mul_of_pos_right, mod-le}
use esp32_tinyemu.Interp.{bool_word, op_imm_value, muldiv_value, op_value}
use esp32_tinyemu.Interp.Alu.{
  is_negative, magnitude, asr, slt, div32, divu32, rem32, remu32, mulh32, mulhsu32, mulhu32,
}
use esp32_tinyemu.Interp.Fields.{div-lt_power, split_power}

-- A value, where there is one, is a word.
abbrev pub Fits : Option ℕ → Type 0
Fits none = zero < suc zero
Fits (some v) = v < 2 ^ 32

power_le : (k : ℕ) → k ≤ 32 → 2 ^ (32 - k) ≤ 2 ^ 32
power_le k le = omega (arith, split_power k 32 le, le-mul_of_pos_right (2 ^ (32 - k)) (positive k))

pub asr_lt : (x k : ℕ) → x < 2 ^ 32 → k < 32 → asr x k < 2 ^ 32
asr_lt x k lx lk = elim (Bool-cases (is_negative x)) [
  | inl n ↦ rw n (omega (arith, div-lt_power x k lx (omega arith), power_le k (omega arith)))
  | inr p ↦ rw p (omega (arith, div-le_self x (2 ^ k)))
]

magnitude_lt : (x : ℕ) → x < 2 ^ 32 → magnitude x < 2 ^ 31 + 1
magnitude_lt x lt = ground arith

div32_lt : (a b : ℕ) → a < 2 ^ 32 → b < 2 ^ 32 → div32 a b < 2 ^ 32
unfolding div32
div32_lt a b la lb = ground (arith, magnitude_lt a la, div-le_self (magnitude a) (magnitude b))

rem32_lt : (a b : ℕ) → a < 2 ^ 32 → b < 2 ^ 32 → rem32 a b < 2 ^ 32
unfolding rem32
rem32_lt a b la lb = ground (arith, magnitude_lt a la, mod-le (magnitude a) (magnitude b))

pub muldiv_lt : (f a b : ℕ) → a < 2 ^ 32 → b < 2 ^ 32 → muldiv_value f a b < 2 ^ 32
unfolding muldiv_value mulh32 mulhsu32 mulhu32 divu32 remu32
muldiv_lt f a b la lb =
    ground (arith, div32_lt a b la lb, rem32_lt a b la lb, div-le_self a b, mod-le a b)

Fits-if : (x y : Option ℕ) (c : Bool) → Fits x → Fits y → Fits (if c then x else y)
Fits-if x y true p q = p
Fits-if x y false p q = q

test_lt : (c : Bool) → bool_word c < 2 ^ 32
test_lt true = omega arith
test_lt false = omega arith

pub op_imm_lt : (f x imm : ℕ) → x < 2 ^ 32 → Fits (op_imm_value f x imm)
unfolding op_imm_value
op_imm_lt f x imm lx = Fits-if _ _ (f == 0) (omega arith) (
    Fits-if _ _ (f == 1) (Fits-if _ _ (word_and imm (word_not 31) == 0) (omega arith) (omega arith))
      (Fits-if _ _ (f == 2) (test_lt (slt x imm)) (
        Fits-if _ _ (f == 3) (test_lt (ltb x imm)) (
          Fits-if _ _ (f == 4) (xor_lt x imm) (
            Fits-if _ _ (f == 5)
              (Fits-if _ _ (word_and imm (word_not (word_or 31 0x400)) == 0)
                (Fits-if _ _ (bit imm 10 == 1) (asr_lt x (imm % 2 ^ 5) lx (omega arith))
                  (omega (arith, div-le_self x (2 ^ (imm % 2 ^ 5)))))
                (omega arith))
              (Fits-if _ _ (f == 6) (or_lt x imm) (and_lt x imm)))))))

pub op_lt : (f a b : ℕ) → a < 2 ^ 32 → Fits (op_value f a b)
unfolding op_value
op_lt f a b la = Fits-if _ _ (f == 0) (omega arith) (
    Fits-if _ _ (f == 8) (omega arith) (
      Fits-if _ _ (f == 1) (omega arith) (
        Fits-if _ _ (f == 2) (test_lt (slt a b)) (
          Fits-if _ _ (f == 3) (test_lt (ltb a b)) (
            Fits-if _ _ (f == 4) (xor_lt a b) (
              Fits-if _ _ (f == 5) (omega (arith, div-le_self a (2 ^ (b % 2 ^ 5)))) (
                Fits-if _ _ (f == 13) (asr_lt a (b % 2 ^ 5) la (omega arith)) (
                  Fits-if _ _ (f == 6) (or_lt a b)
                    (Fits-if _ _ (f == 7) (and_lt a b) (omega arith))))))))))
