-- ===== src/Exec/Compressed.antt =====
-- The compressed instructions, with the floating point loads and stores of FLEN 64.
use esp32_tinyemu.Prelude.{
  ℕ, ◌+◌, ◌*◌, ◌/◌, ◌%◌, ◌^◌, ◌==◌, if◌then◌else◌, [], ◌∷◌, Option, none, some, size_add, size_sub,
  bit, word_and, word_or, word_xor,
}
use esp32_tinyemu.LruCache.NodeList.{Libraries}
use esp32_tinyemu.Bus.{Target, target_read_slow, target_write_slow}
use esp32_tinyemu.Interp.{rd_of, sext}
use esp32_tinyemu.Interp.Alu.{shl, asr}
use esp32_tinyemu.Exec.Memory.{set_fp_reg, f32_high}
use esp32_tinyemu.Exec.{
  Environment, Exit, next, jump, exception, illegal, get_field1, fields, with_reg, with_pc,
  with_pending, cause_breakpoint, load_then, store_then,
}

-- The fields of compressed instructions.
abbrev pub c_funct3 : ℕ → ℕ
c_funct3 insn = insn / 2 ^ 13 % 2 ^ 3

abbrev pub c_rs2 : ℕ → ℕ
c_rs2 insn = insn / 2 ^ 2 % 2 ^ 5

-- `((insn >> 2) & 7) | 8` and `((insn >> 7) & 7) | 8`
abbrev pub c_low_reg : ℕ → ℕ
c_low_reg insn = insn / 2 ^ 2 % 2 ^ 3 + 8

abbrev pub c_high_reg : ℕ → ℕ
c_high_reg insn = insn / 2 ^ 7 % 2 ^ 3 + 8

unfoldable pub c_addi4spn_imm : ℕ → ℕ
c_addi4spn_imm insn = fields insn ((11, 4, 5) ∷ (7, 6, 9) ∷ (6, 2, 2) ∷ (5, 3, 3) ∷ [])

-- The offsets of words and double words.
unfoldable pub c_word_imm : ℕ → ℕ
c_word_imm insn = fields insn ((10, 3, 5) ∷ (6, 2, 2) ∷ (5, 6, 6) ∷ [])

unfoldable pub c_double_imm : ℕ → ℕ
c_double_imm insn = fields insn ((10, 3, 5) ∷ (5, 6, 7) ∷ [])

unfoldable pub c_imm6 : ℕ → ℕ
c_imm6 insn = sext (fields insn ((12, 5, 5) ∷ (2, 0, 4) ∷ [])) 6

unfoldable pub c_shift : ℕ → ℕ
c_shift insn = fields insn ((12, 5, 5) ∷ (2, 0, 4) ∷ [])

unfoldable pub c_addi16sp_imm : ℕ → ℕ
c_addi16sp_imm insn =
    sext (fields insn ((12, 9, 9) ∷ (6, 4, 4) ∷ (5, 6, 6) ∷ (3, 7, 8) ∷ (2, 5, 5) ∷ [])) 10

unfoldable pub c_lui_imm : ℕ → ℕ
c_lui_imm insn = sext (fields insn ((12, 17, 17) ∷ (2, 12, 16) ∷ [])) 18

-- The offset of `c.j` and `c.jal`.
unfoldable pub c_jump_imm : ℕ → ℕ
c_jump_imm insn =
    sext
      (fields insn (
        (12, 11, 11)
        ∷ (11, 4, 4)
        ∷ (9, 8, 9)
        ∷ (8, 10, 10)
        ∷ (7, 6, 6)
        ∷ (6, 7, 7)
        ∷ (3, 1, 3)
        ∷ (2, 5, 5)
        ∷ []))
      12

-- The offset of `c.beqz` and `c.bnez`.
unfoldable pub c_branch_imm : ℕ → ℕ
c_branch_imm insn =
    sext (fields insn ((12, 8, 8) ∷ (10, 3, 4) ∷ (5, 6, 7) ∷ (3, 1, 2) ∷ (2, 5, 5) ∷ [])) 9

-- The offsets from the stack pointer, of loads and of stores.
unfoldable pub c_lwsp_imm : ℕ → ℕ
c_lwsp_imm insn =
    word_or (get_field1 insn 12 5 5)
      (word_or (word_and (c_rs2 insn) (7 * 4)) (get_field1 insn 2 6 7))

unfoldable pub c_fldsp_imm : ℕ → ℕ
c_fldsp_imm insn =
    word_or (get_field1 insn 12 5 5)
      (word_or (word_and (c_rs2 insn) (3 * 8)) (get_field1 insn 2 6 8))

unfoldable pub c_swsp_imm : ℕ → ℕ
c_swsp_imm insn = fields insn ((9, 2, 5) ∷ (7, 6, 7) ∷ [])

unfoldable pub c_fsdsp_imm : ℕ → ℕ
c_fsdsp_imm insn = fields insn ((10, 3, 5) ∷ (7, 6, 8) ∷ [])

-- `c.sub`, `c.xor`, `c.or` and `c.and`, by their three bits.
unfoldable pub c_arithmetic : ℕ → ℕ → ℕ → Option ℕ
c_arithmetic selector a b =
    if selector == 0
    then some (size_sub a b)
    else if selector == 1
    then some (word_xor a b)
    else if selector == 2
    then some (word_or a b)
    else if selector == 3
    then some (word_and a b)
    else none

module _ {lib : Libraries} {W : Type 0} where
  -- The test of the floating point status, which those cases have first.
  unfoldable pub when_float : Target lib W → Option (Exit lib W) → Option (Exit lib W)
  when_float t e = if t.core.fs == 0 then some (illegal t) else e

  -- The case 4 of the second quadrant.
  unfoldable pub c_register : Target lib W → ℕ → Exit lib W
  c_register t insn =
      let rd = c_high_reg insn in
      let a = t.core.reg rd in
      let code = insn / 2 ^ 10 % 2 ^ 2 in
      let selector = insn / 2 ^ 5 % 2 ^ 2 + insn / 2 ^ 12 % 2 * 2 ^ 2 in
      if code == 0
      then if bit (c_shift insn) 5 == 1
        then illegal t
        else next (with_reg t rd (a / 2 ^ c_shift insn)) 2
      else if code == 1
      then if bit (c_shift insn) 5 == 1
        then illegal t
        else next (with_reg t rd (asr a (c_shift insn))) 2
      else if code == 2
      then next (with_reg t rd (word_and a (c_imm6 insn))) 2
      else elim (c_arithmetic selector a (t.core.reg (c_low_reg insn))) [
        | none ↦ illegal t
        | some val ↦ next (with_reg t rd val) 2
      ]

  unfoldable pub quadrant1 : Target lib W → ℕ → ℕ → Exit lib W
  quadrant1 t pc insn =
      let funct3 = c_funct3 insn in
      let rd = rd_of insn in
      let target = size_add pc (c_jump_imm insn) in
      let goes = jump (with_pc t (size_add pc (c_branch_imm insn))) in
      let tested = t.core.reg (c_high_reg insn) in
      if funct3 == 0
      then next (with_reg t rd (size_add (t.core.reg rd) (c_imm6 insn))) 2
      else if funct3 == 1
      then jump (with_pc (with_reg t 1 (size_add pc 2)) target)
      else if funct3 == 2
      then next (with_reg t rd (c_imm6 insn)) 2
      else if funct3 == 3
      then if rd == 2
        then if c_addi16sp_imm insn == 0
          then illegal t
          else next (with_reg t 2 (size_add (t.core.reg 2) (c_addi16sp_imm insn))) 2
        else next (with_reg t rd (c_lui_imm insn)) 2
      else if funct3 == 4
      then c_register t insn
      else if funct3 == 5
      then jump (with_pc t target)
      else if funct3 == 6
      then if tested == 0 then goes else next t 2
      else if tested == 0
      then next t 2
      else goes

  -- The case 4 of the third quadrant: jumps, moves, additions and `c.ebreak`.
  unfoldable pub c_jump_move : Target lib W → ℕ → ℕ → Exit lib W
  c_jump_move t pc insn =
      let rd = rd_of insn in
      let rs2 = c_rs2 insn in
      let target = t.core.reg rd / 2 * 2 in
      if insn / 2 ^ 12 % 2 == 0
      then if rs2 == 0
        then if rd == 0 then illegal t else jump (with_pc t target)
        else next (with_reg t rd (t.core.reg rs2)) 2
      else if rs2 == 0
      then if rd == 0
        then exception (with_pending t cause_breakpoint)
        else jump (with_reg (with_pc t target) 1 (size_add pc 2))
      else next (with_reg t rd (size_add (t.core.reg rd) (t.core.reg rs2))) 2

module _ {lib : Libraries} {W : Type 0} (env : Environment lib W) where
  unfoldable pub quadrant0 : Target lib W → ℕ → Option (Exit lib W)
  quadrant0 t insn =
      let funct3 = c_funct3 insn in
      let rd = c_low_reg insn in
      let base = t.core.reg (c_high_reg insn) in
      let word = size_add base (c_word_imm insn) in
      let double = size_add base (c_double_imm insn) in
      let imm = c_addi4spn_imm insn in
      let after = λ (t' : Target lib W). some (next t' 2) in
      if funct3 == 0
      then if imm == 0
        then some (illegal t)
        else some (next (with_reg t rd (size_add (t.core.reg 2) imm)) 2)
      else if funct3 == 1
      then when_float t (
          load_then env 64 (target_read_slow t double 3)
            (λ v t'. some (next (record t' { core = set_fp_reg t'.core rd v }) 2)))
      else if funct3 == 2
      then load_then env 32 (target_read_slow t word 2) (λ v t'. some (next (with_reg t' rd v) 2))
      else if funct3 == 3
      then when_float t (
          load_then env 32 (target_read_slow t word 2)
            (λ v t'. some (next (record t' { core = set_fp_reg t'.core rd (v + f32_high) }) 2)))
      else if funct3 == 5
      then when_float t (store_then (target_write_slow t double (t.core.fp_reg rd) 3) after)
      else if funct3 == 6
      then store_then (target_write_slow t word (t.core.reg rd) 2) after
      else if funct3 == 7
      then when_float t (store_then (target_write_slow t word (t.core.fp_reg rd % 2 ^ 32) 2) after)
      else some (illegal t)

  unfoldable pub quadrant2 : Target lib W → ℕ → ℕ → Option (Exit lib W)
  quadrant2 t pc insn =
      let funct3 = c_funct3 insn in
      let rd = rd_of insn in
      let rs2 = c_rs2 insn in
      let imm = word_or (get_field1 insn 12 5 5) rs2 in
      let at = λ (offset : ℕ). size_add (t.core.reg 2) offset in
      let after = λ (t' : Target lib W). some (next t' 2) in
      if funct3 == 0
      then if bit imm 5 == 1
        then some (illegal t)
        else some (next (with_reg t rd (shl (t.core.reg rd) imm)) 2)
      else if funct3 == 1
      then when_float t (
          load_then env 64 (target_read_slow t (at (c_fldsp_imm insn)) 3)
            (λ v t'. some (next (record t' { core = set_fp_reg t'.core rd v }) 2)))
      else if funct3 == 2
      then load_then env 32 (target_read_slow t (at (c_lwsp_imm insn)) 2)
          (λ v t'. some (next (with_reg t' rd v) 2))
      else if funct3 == 3
      then when_float t (
          load_then env 32 (target_read_slow t (at (c_lwsp_imm insn)) 2)
            (λ v t'. some (next (record t' { core = set_fp_reg t'.core rd (v + f32_high) }) 2)))
      else if funct3 == 4
      then some (c_jump_move t pc insn)
      else if funct3 == 5
      then when_float t
          (store_then (target_write_slow t (at (c_fsdsp_imm insn)) (t.core.fp_reg rs2) 3) after)
      else if funct3 == 6
      then store_then (target_write_slow t (at (c_swsp_imm insn)) (t.core.reg rs2) 2) after
      else when_float t (
          store_then (target_write_slow t (at (c_swsp_imm insn)) (t.core.fp_reg rs2 % 2 ^ 32) 2)
            after)
