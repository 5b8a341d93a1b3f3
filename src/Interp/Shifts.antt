-- ===== src/Interp/Shifts.antt =====
-- The shifts bit by bit, and the conditions of the branches.
use esp32_tinyemu.Prelude.{
  ℕ, ◌+◌, ◌-◌, ◌/◌, ◌%◌, ◌^◌, ◌<◌, ◌≡◌, Bool, true, false, not, ◌==◌, if◌then◌else◌, ltb, Option,
  none, some, arith, ◌∙◌, refl, bit, bit_high,
}
use esp32_tinyemu.Interp.{op_value, branch_taken}
use esp32_tinyemu.Interp.Alu.{shl, asr, slt, is_negative, magnitude}
use esp32_tinyemu.Interp.Fields.{bit-shl, bit-quotient, bit-asr}

-- The values of `sll`, `srl` and `sra`.
pub record Shifts (a b k : ℕ) : Type 0 where
  pub left : ℕ
  pub right : ℕ
  pub signed : ℕ
  pub sll : op_value 1 a b ≡ some left
  pub srl : op_value 5 a b ≡ some right
  pub sra : op_value 13 a b ≡ some signed
  pub sll_bit : bit left k ≡ (if ltb k (b % 32) then 0 else bit a (k - b % 32))
  pub srl_bit : bit right k ≡ (if ltb (k + b % 32) 32 then bit a (k + b % 32) else 0)
  pub sra_bit : bit signed k ≡ (if ltb (k + b % 32) 32 then bit a (k + b % 32) else bit a 31)

-- `sll`, `srl` and `sra` move each bit of the first operand by the low five bits of the second; what
-- moves in is 0, and for `sra` the sign.
pub shift_lem : (a b k : ℕ) → a < 2 ^ 32 → k < 32 → Shifts a b k
unfolding op_value
shift_lem a b k la lk =
    let n = b % 2 ^ 5 in
    record {
      left = shl a n;
      right = a / 2 ^ n;
      signed = asr a n;
      sll = refl;
      srl = refl;
      sra = refl;
      sll_bit = bit-shl a n k (omega arith) lk;
      srl_bit = bit-quotient a n k ∙ ground (arith, bit_high 32 a (k + n) la);
      sra_bit = bit-asr a n k la (omega arith) lk;
    }

-- The order of signed numbers, by signs and magnitudes.
abbrev pub signed_less : ℕ → ℕ → Bool
signed_less a b =
    if is_negative a
    then if is_negative b then ltb (magnitude b) (magnitude a) else true
    else if is_negative b
    then false
    else ltb a b

-- The condition that the instruction set gives a branch.
abbrev pub condition : ℕ → ℕ → ℕ → Option Bool
condition funct3 a b =
    if funct3 == 0
    then some (a == b)
    else if funct3 == 1
    then some (not (a == b))
    else if funct3 == 4
    then some (signed_less a b)
    else if funct3 == 5
    then some (not (signed_less a b))
    else if funct3 == 6
    then some (ltb a b)
    else if funct3 == 7
    then some (not (ltb a b))
    else none

order_lem : (a b : ℕ) → a < 2 ^ 32 → b < 2 ^ 32 → slt a b ≡ signed_less a b
order_lem a b la lb = ground arith

codes :
    (f : ℕ) (eq less below : Bool)
    → f < 8
    → (if f / 2 == 0
        then some (if f % 2 == 1 then not eq else eq)
        else if f / 2 == 2
        then some (if f % 2 == 1 then not less else less)
        else if f / 2 == 3
        then some (if f % 2 == 1 then not below else below)
        else none)
      ≡ (if f == 0
          then some eq
          else if f == 1
          then some (not eq)
          else if f == 4
          then some less
          else if f == 5
          then some (not less)
          else if f == 6
          then some below
          else if f == 7
          then some (not below)
          else none)
codes f eq less below lt = ground arith

-- The branches compare words for equality and order, as numbers with the signs of two's complement
-- or without, `bne`, `bge` and `bgeu` with the opposite result; the codes 2 and 3 are illegal.
pub branch_taken_lem :
    (funct3 a b : ℕ)
    → funct3 < 8
    → a < 2 ^ 32
    → b < 2 ^ 32
    → branch_taken funct3 a b ≡ condition funct3 a b
unfolding branch_taken
branch_taken_lem funct3 a b lf la lb =
    rw (order_lem a b la lb) (codes funct3 (a == b) (signed_less a b) (ltb a b) lf)
