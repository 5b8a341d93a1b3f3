-- ===== src/Tests/Instructions.antt =====
-- The integer instructions on concrete operands, and a core whose registers are 0.
use esp32_tinyemu.Prelude.{
  ℕ, ◌+◌, ◌*◌, ◌%◌, ◌^◌, ◌<◌, ◌≡◌, ◌⊎◌, not, if◌then◌else◌, ltb, ◌==◌, arith, bit, word_or,
  word_and, digits, refl,
}
use esp32_tinyemu.Tests.Machine.{core}
use esp32_tinyemu.Interp.{sext, imm_j, imm_b, exec_integer, branch_taken}
use esp32_tinyemu.Interp.Alu.{
  is_negative, magnitude, div32, rem32, divu32, remu32, mulh32, mulhsu32, mulhu32,
}
use esp32_tinyemu.Interp.Division.{division_lem}
use esp32_tinyemu.Interp.Product.{product_lem, wide, with_sign}
use esp32_tinyemu.Interp.Fields.{imm_j_lem, imm_b_lem}
use esp32_tinyemu.Interp.Registers.{HasWords, Steps, exec_integer_lem}
use esp32_tinyemu.Interp.Shifts.{branch_taken_lem, condition}

-- -7 by 2
division_lem_example :
    ((2 * div32 0xfffffff9 2 + rem32 0xfffffff9 2) % 2 ^ 32 ≡ 0xfffffff9)
    × ((2 * divu32 0xfffffff9 2 + remu32 0xfffffff9 2) ≡ 0xfffffff9)
    × ((◌≡◌ {A = ℕ} 2 0)
        ⊎ ((magnitude (rem32 0xfffffff9 2) < magnitude 2)
            × ((rem32 0xfffffff9 2 ≡ 0)
                ⊎ (is_negative (rem32 0xfffffff9 2) ≡ is_negative 0xfffffff9))
            × (remu32 0xfffffff9 2 < 2)))
division_lem_example = division_lem 0xfffffff9 2 (omega arith) (omega arith)

product_lem_example :
    (wide (mulhu32 0xfffffff9 2) (0xfffffff9 * 2 % 2 ^ 32) ≡ 0xfffffff9 * 2)
    × (wide (mulh32 0xfffffff9 2) (0xfffffff9 * 2 % 2 ^ 32)
        ≡ with_sign
            (if is_negative 0xfffffff9 then not (is_negative 2) else is_negative 2)
            (magnitude 0xfffffff9 * magnitude 2))
    × (wide (mulhsu32 0xfffffff9 2) (0xfffffff9 * 2 % 2 ^ 32)
        ≡ with_sign (is_negative 0xfffffff9) (magnitude 0xfffffff9 * 2))
product_lem_example = product_lem 0xfffffff9 2 (omega arith) (omega arith)

-- `jal ra, -16`
imm_j_lem_example : bit (imm_j 0xff1ff0ef) 5 ≡ (
    if 5 == 0
    then 0
    else if ltb 5 11
    then bit 0xff1ff0ef (5 + 20)
    else if 5 == 11
    then bit 0xff1ff0ef 20
    else if ltb 5 20
    then bit 0xff1ff0ef 5
    else bit 0xff1ff0ef 31)
imm_j_lem_example = imm_j_lem 0xff1ff0ef 5 (omega arith)

imm_j_run : imm_j 0xff1ff0ef ≡ 0xfffffff0
unfolding imm_j sext word_or word_and digits
imm_j_run = refl

-- `beq a0, a1, 8`
imm_b_lem_example : bit (imm_b 0x00b50463) 3 ≡ (
    if 3 == 0
    then 0
    else if ltb 3 5
    then bit 0x00b50463 (3 + 7)
    else if ltb 3 11
    then bit 0x00b50463 (3 + 20)
    else if 3 == 11
    then bit 0x00b50463 7
    else bit 0x00b50463 31)
imm_b_lem_example = imm_b_lem 0x00b50463 3 (omega arith)

imm_b_run : imm_b 0x00b50463 ≡ 8
unfolding imm_b sext word_or word_and digits
imm_b_run = refl

core-HasWords : HasWords core
core-HasWords = record { reg_lt = λ r. omega arith; reg_zero = refl }

exec_integer_lem_example : Steps core 4096 0xff1ff0ef (exec_integer core 4096 0xff1ff0ef)
exec_integer_lem_example =
    exec_integer_lem core 4096 0xff1ff0ef core-HasWords (omega arith) (omega arith) refl

branch_taken_lem_example : branch_taken 4 0xfffffff9 2 ≡ condition 4 0xfffffff9 2
branch_taken_lem_example = branch_taken_lem 4 0xfffffff9 2 (omega arith) (omega arith) (omega arith)
