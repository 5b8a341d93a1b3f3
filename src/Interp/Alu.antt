-- ===== src/Interp/Alu.antt =====
-- The arithmetic helpers of lib/tinyemu/riscv_cpu_template.h for XLEN 32, and the shifts of int32_t.
-- An int32_t is the word of its two's complement.
use esp32_tinyemu.Prelude.{
  ℕ, ◌+◌, ◌-◌, ◌*◌, ◌/◌, ◌%◌, ◌^◌, Bool, ◌&&◌, ◌==◌, if◌then◌else◌, ltb, leb, size_sub,
}

abbrev pub is_negative : ℕ → Bool
is_negative x = leb (2 ^ 31) x

-- `-x`
abbrev pub negate : ℕ → ℕ
negate x = size_sub 0 x

abbrev pub magnitude : ℕ → ℕ
magnitude x = if is_negative x then 2 ^ 32 - x else x

-- `x << k` for k below 32
abbrev pub shl : ℕ → ℕ → ℕ
shl x k = x * 2 ^ k % 2 ^ 32

-- `x >> k` of an int32_t for k below 32
abbrev pub asr : ℕ → ℕ → ℕ
asr x k = x / 2 ^ k + (if is_negative x then 2 ^ 32 - 2 ^ (32 - k) else 0)

-- `x < y` of int32_t
abbrev pub slt : ℕ → ℕ → Bool
slt x y = ltb ((x + 2 ^ 31) % 2 ^ 32) ((y + 2 ^ 31) % 2 ^ 32)

-- `a / b` of int32_t, which rounds towards 0
abbrev pub quotient : ℕ → ℕ → ℕ
quotient a b =
    let q = magnitude a / magnitude b in
    if is_negative a
    then if is_negative b then q else negate q
    else if is_negative b
    then negate q
    else q

-- `a % b` of int32_t, which has the sign of `a`
abbrev pub remainder : ℕ → ℕ → ℕ
remainder a b = let r = magnitude a % magnitude b in if is_negative a then negate r else r

unfoldable pub div32 : ℕ → ℕ → ℕ
div32 a b =
    if b == 0 then 2 ^ 32 - 1 else if (a == 2 ^ 31) && (b == 2 ^ 32 - 1) then a else quotient a b

unfoldable pub divu32 : ℕ → ℕ → ℕ
divu32 a b = if b == 0 then 2 ^ 32 - 1 else a / b

unfoldable pub rem32 : ℕ → ℕ → ℕ
rem32 a b = if b == 0 then a else if (a == 2 ^ 31) && (b == 2 ^ 32 - 1) then 0 else remainder a b

unfoldable pub remu32 : ℕ → ℕ → ℕ
remu32 a b = if b == 0 then a else a % b

-- `(int64_t)x`
abbrev pub sext64 : ℕ → ℕ
sext64 x = if is_negative x then x + (2 ^ 64 - 2 ^ 32) else x

-- The high word of a product of int64_t.
abbrev pub high_product : ℕ → ℕ → ℕ
high_product x y = x * y % 2 ^ 64 / 2 ^ 32

unfoldable pub mulh32 : ℕ → ℕ → ℕ
mulh32 a b = high_product (sext64 a) (sext64 b)

unfoldable pub mulhsu32 : ℕ → ℕ → ℕ
mulhsu32 a b = high_product (sext64 a) b

unfoldable pub mulhu32 : ℕ → ℕ → ℕ
mulhu32 a b = high_product a b
