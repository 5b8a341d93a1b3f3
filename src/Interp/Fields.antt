-- ===== src/Interp/Fields.antt =====
-- The immediate operands of the jumps, bit by bit.
use esp32_tinyemu.Prelude.{
  ℕ, zero, suc, ◌+◌, ◌-◌, ◌*◌, ◌/◌, ◌^◌, ◌≤◌, ◌<◌, ◌≡◌, inl, inr, ◌==◌, if◌then◌else◌, ltb, arith,
  Bool-cases, ap, ◌∙◌, sym, refl, bit, bit-and, bit-or, bit-shift, bit-join, bit-mask, bit-mod,
  bit-div, bit_high, bit_zero, digit, word_and, word_or, positive, double,
}
use native.Mathlib.Nat.{div-lt_iff_lt-mul}
use esp32_tinyemu.Interp.{sext, imm_j, imm_b}
use esp32_tinyemu.Interp.Division.{left_sum}
use esp32_tinyemu.Interp.Alu.{shl, asr, is_negative}

-- A field of ones.
pub bit-field_mask :
    (p n k : ℕ)
    → bit ((2 ^ n - 1) * 2 ^ p + 0) k ≡ (if ltb k p then 0 else if ltb k (p + n) then 1 else 0)
bit-field_mask p n k =
    ground (arith, bit-join p (2 ^ n - 1) 0 k (positive p), bit-mask n (k - p), bit_zero k)

power_sum : (m n : ℕ) → 2 ^ (m + n) ≡ 2 ^ m * 2 ^ n
power_sum zero n = grind arith
power_sum (suc m) n = grind (arith, double (m + n), double m, power_sum m n)

pub split_power : (k n : ℕ) → k ≤ n → 2 ^ (n - k) * 2 ^ k ≡ 2 ^ n
split_power k n le = sym (power_sum (n - k) k) ∙ ap (λ t. 2 ^ t) (omega arith)

pub div-lt_power : (x k : ℕ) → x < 2 ^ 32 → k ≤ 32 → x / 2 ^ k < 2 ^ (32 - k)
div-lt_power x k lx lk = (div-lt_iff_lt-mul (positive k)).1 (omega (arith, split_power k 32 lk))

-- The sign of a word is its bit 31.
sign_bit : (x : ℕ) → x < 2 ^ 32 → bit x 31 ≡ (if is_negative x then 1 else 0)
sign_bit x lt = ground (arith, bit-shift x 31)

pub bit-quotient : (x k i : ℕ) → bit (x / 2 ^ k) i ≡ bit x (i + k)
bit-quotient x k i = ap (bit (x / 2 ^ k)) there ∙ bit-div k x (i + k) (omega arith)
  where
    there : i ≡ i + k - k
    there = omega arith

-- The copies of the sign in front of a shifted word.
sign_copies :
    (x k i : ℕ)
    → x < 2 ^ 32
    → k < 32
    → bit (x / 2 ^ k + (2 ^ 32 - 2 ^ (32 - k))) i
      ≡ (if ltb i (32 - k) then bit (x / 2 ^ k) i else bit (2 ^ k - 1) (i - (32 - k)))
sign_copies x k i lx lk =
    ap (λ t. bit t i) joined
    ∙ bit-join (32 - k) (2 ^ k - 1) (x / 2 ^ k) i (div-lt_power x k lx (omega arith))
  where
    joined : x / 2 ^ k + (2 ^ 32 - 2 ^ (32 - k)) ≡ (2 ^ k - 1) * 2 ^ (32 - k) + x / 2 ^ k
    joined = omega (
      arith,
      split_power k 32 (omega arith),
      left_sum (2 ^ k - 1) 1 (2 ^ (32 - k)) (2 ^ k) (omega (arith, positive k)),
    )

pub bit-asr :
    (x k i : ℕ)
    → x < 2 ^ 32
    → k < 32
    → i < 32
    → bit (asr x k) i ≡ (if ltb (i + k) 32 then bit x (i + k) else bit x 31)
bit-asr x k i lx lk li = elim (Bool-cases (is_negative x)) [
  | inl n ↦ rw n (
      ground (
        arith,
        n,
        sign_copies x k i lx lk,
        bit-quotient x k i,
        bit-mask k (i - (32 - k)),
        sign_bit x lx,
      ))
  | inr p ↦
      rw p
        (ground (arith, p, none_added, bit-quotient x k i, bit_high 32 x (i + k) lx, sign_bit x lx))
]
  where
    none_added : bit (x / 2 ^ k + 0) i ≡ bit (x / 2 ^ k) i
    none_added = ap (λ t. bit t i) (omega arith)

pub bit-shl :
    (x k i : ℕ) → k ≤ 32 → i < 32 → bit (shl x k) i ≡ (if ltb i k then 0 else bit x (i - k))
bit-shl x k i lk li =
    bit-mod 32 (x * 2 ^ k) i ∙ ground (arith, none_added, bit-join k x 0 i (positive k), bit_zero i)
  where
    none_added : bit (x * 2 ^ k) i ≡ bit (x * 2 ^ k + 0) i
    none_added = ap (λ t. bit t i) (omega arith)

pub bit-sext :
    (x n i : ℕ)
    → n < 32
    → i < 32
    → 0 < n
    → bit (sext x n) i ≡ (if ltb i n then bit x i else bit x (n - 1))
unfolding sext
bit-sext x n i ln li p = ground (
  arith,
  bit-asr (shl x (32 - n)) (32 - n) i (omega arith) (omega arith) li,
  bit-shl x (32 - n) (i + (32 - n)) (omega arith),
  bit-shl x (32 - n) 31 (omega arith) (omega arith),
)

-- A bit of the field of `n` bits from `p` on of a shifted word.
field_bit :
    (x s m p n k : ℕ)
    → m ≡ (2 ^ n - 1) * 2 ^ p + 0
    → k < 32
    → bit (word_and (x / 2 ^ s) m) k
      ≡ (if ltb k p then 0 else if ltb k (p + n) then bit x (k + s) else 0)
field_bit x s m p n k e lt =
    bit-and (x / 2 ^ s) m k lt
    ∙ ground (arith, ap (λ t. bit t k) e, bit-field_mask p n k, bit-quotient x s k, digit x (k + s))

low_field :
    (x m p n k : ℕ)
    → m ≡ (2 ^ n - 1) * 2 ^ p + 0
    → k < 32
    → bit (word_and x m) k ≡ (if ltb k p then 0 else if ltb k (p + n) then bit x k else 0)
low_field x m p n k e lt =
    bit-and x m k lt ∙ ground (arith, ap (λ t. bit t k) e, bit-field_mask p n k, digit x k)

j_ends :
    (insn k : ℕ)
    → ((k ≡ 20) → bit insn (k + 11) ≡ bit insn 31) × ((k ≡ 11) → bit insn (k + 9) ≡ bit insn 20)
j_ends insn k = (λ e. ap (λ t. bit insn (t + 11)) e, λ e. ap (λ t. bit insn (t + 9)) e)

four_fields :
    (a b c d k : ℕ)
    → k < 32
    → bit (word_or (word_or (word_or a b) c) d) k
      ≡ (if bit a k + bit b k + bit c k + bit d k == 0 then 0 else 1)
four_fields a b c d k lt = grind (
  arith,
  bit-or (word_or (word_or a b) c) d k lt,
  bit-or (word_or a b) c k lt,
  bit-or a b k lt,
  digit a k,
  digit b k,
  digit c k,
  digit d k,
)

-- The operand of `jal` before its sign is extended.
abbrev j_bits : ℕ → ℕ
j_bits insn =
    word_or
      (word_or (word_or (word_and (insn / 2 ^ 11) (2 ^ 20)) (word_and (insn / 2 ^ 20) 0x7fe))
        (word_and (insn / 2 ^ 9) (2 ^ 11)))
      (word_and insn 0xff000)

j_field :
    (insn k : ℕ)
    → k < 21
    → bit (j_bits insn) k ≡ (
        if k == 0
        then 0
        else if ltb k 11
        then bit insn (k + 20)
        else if k == 11
        then bit insn 20
        else if ltb k 20
        then bit insn k
        else bit insn 31)
j_field insn k lt =
    four_fields (word_and (insn / 2 ^ 11) (2 ^ 20)) (word_and (insn / 2 ^ 20) 0x7fe)
      (word_and (insn / 2 ^ 9) (2 ^ 11)) (word_and insn 0xff000) k (omega arith)
    ∙ rw
        (
          field_bit insn 11 (2 ^ 20) 20 1 k refl (omega arith),
          field_bit insn 20 0x7fe 1 10 k refl (omega arith),
          field_bit insn 9 (2 ^ 11) 11 1 k refl (omega arith),
          low_field insn 0xff000 12 8 k refl (omega arith),
        )
        (ground
          (arith, digit insn (k + 20), digit insn 20, digit insn k, digit insn 31, j_ends insn k))

-- The bits of the offset of `jal`: 0 is 0, 1 to 10 are the bits 21 to 30 of the instruction, 11 is
-- its bit 20, 12 to 19 are its bits 12 to 19, and all others its bit 31.
pub imm_j_lem :
    (insn k : ℕ)
    → k < 32
    → bit (imm_j insn) k ≡ (
        if k == 0
        then 0
        else if ltb k 11
        then bit insn (k + 20)
        else if k == 11
        then bit insn 20
        else if ltb k 20
        then bit insn k
        else bit insn 31)
unfolding imm_j
imm_j_lem insn k lt = ground (
  arith,
  bit-sext (j_bits insn) 21 k (omega arith) lt (omega arith),
  j_field insn k,
  j_field insn 20 (omega arith),
)

b_ends :
    (insn k : ℕ)
    → ((k ≡ 12) → bit insn (k + 19) ≡ bit insn 31) × ((k ≡ 11) → bit insn (k - 4) ≡ bit insn 7)
b_ends insn k = (λ e. ap (λ t. bit insn (t + 19)) e, λ e. ap (λ t. bit insn (t - 4)) e)

-- The operand of a branch before its sign is extended.
abbrev b_bits : ℕ → ℕ
b_bits insn =
    word_or
      (word_or (word_or (word_and (insn / 2 ^ 19) (2 ^ 12)) (word_and (insn / 2 ^ 20) 0x7e0))
        (word_and (insn / 2 ^ 7) 0x1e))
      (word_and (shl insn 4) (2 ^ 11))

b_field :
    (insn k : ℕ)
    → k < 13
    → bit (b_bits insn) k ≡ (
        if k == 0
        then 0
        else if ltb k 5
        then bit insn (k + 7)
        else if ltb k 11
        then bit insn (k + 20)
        else if k == 11
        then bit insn 7
        else bit insn 31)
b_field insn k lt =
    four_fields (word_and (insn / 2 ^ 19) (2 ^ 12)) (word_and (insn / 2 ^ 20) 0x7e0)
      (word_and (insn / 2 ^ 7) 0x1e) (word_and (shl insn 4) (2 ^ 11)) k (omega arith)
    ∙ rw
        (
          field_bit insn 19 (2 ^ 12) 12 1 k refl (omega arith),
          field_bit insn 20 0x7e0 5 6 k refl (omega arith),
          field_bit insn 7 0x1e 1 4 k refl (omega arith),
          low_field (shl insn 4) (2 ^ 11) 11 1 k refl (omega arith),
          bit-shl insn 4 k (omega arith) (omega arith),
        )
        (ground (
          arith,
          digit insn (k + 20),
          digit insn 7,
          digit insn (k + 7),
          digit insn 31,
          b_ends insn k,
        ))

-- The bits of the offset of a branch: 0 is 0, 1 to 4 are the bits 8 to 11 of the instruction, 5 to 10
-- are its bits 25 to 30, 11 is its bit 7, and all others its bit 31.
pub imm_b_lem :
    (insn k : ℕ)
    → k < 32
    → bit (imm_b insn) k ≡ (
        if k == 0
        then 0
        else if ltb k 5
        then bit insn (k + 7)
        else if ltb k 11
        then bit insn (k + 20)
        else if k == 11
        then bit insn 7
        else bit insn 31)
unfolding imm_b
imm_b_lem insn k lt = ground (
  arith,
  bit-sext (b_bits insn) 13 k (omega arith) lt (omega arith),
  b_field insn k,
  b_field insn 12 (omega arith),
)
