-- ===== src/Interp.antt =====
-- The integer instructions of lib/tinyemu/riscv_cpu_template.h for XLEN 32 that access no memory:
-- the cases of the interpreter's switch from the decoded instruction to the next one.
pub mod Alu
pub mod Division
pub mod Product
pub mod Fields
pub mod Values
pub mod Registers
pub mod Shifts
pub mod Core
use esp32_tinyemu.Prelude.{
  ℕ, ◌+◌, ◌-◌, ◌*◌, ◌/◌, ◌%◌, ◌^◌, Bool, true, false, not, ◌==◌, if◌then◌else◌, ltb, Option, none,
  some, size_add, size_sub, bit, word_and, word_or, word_xor, word_not,
}
use esp32_tinyemu.Cpu.{RiscvCpu, clear}
use esp32_tinyemu.Interp.Alu.{
  shl, asr, slt, div32, divu32, rem32, remu32, mulh32, mulhsu32, mulhu32,
}

-- How a case ends: with NEXT_INSN and the counter of the next instruction, with JUMP_INSN, where the
-- counter is `s->pc`, or at `illegal_insn`.
pub data Outcome : Type 0 where
  next : RiscvCpu → ℕ → Outcome
  jump : RiscvCpu → Outcome
  illegal : Outcome

abbrev pub rd_of : ℕ → ℕ
rd_of insn = insn / 2 ^ 7 % 2 ^ 5

abbrev pub rs1_of : ℕ → ℕ
rs1_of insn = insn / 2 ^ 15 % 2 ^ 5

abbrev pub rs2_of : ℕ → ℕ
rs2_of insn = insn / 2 ^ 20 % 2 ^ 5

abbrev pub funct3_of : ℕ → ℕ
funct3_of insn = insn / 2 ^ 12 % 2 ^ 3

-- `(val << (32 - n)) >> (32 - n)` of int32_t
unfoldable pub sext : ℕ → ℕ → ℕ
sext val n = asr (shl val (32 - n)) (32 - n)

abbrev pub imm_i : ℕ → ℕ
imm_i insn = asr insn 20

unfoldable pub imm_j : ℕ → ℕ
imm_j insn =
    sext
      (word_or
        (word_or (word_or (word_and (insn / 2 ^ 11) (2 ^ 20)) (word_and (insn / 2 ^ 20) 0x7fe))
          (word_and (insn / 2 ^ 9) (2 ^ 11)))
        (word_and insn 0xff000))
      21

unfoldable pub imm_b : ℕ → ℕ
imm_b insn =
    sext
      (word_or
        (word_or (word_or (word_and (insn / 2 ^ 19) (2 ^ 12)) (word_and (insn / 2 ^ 20) 0x7e0))
          (word_and (insn / 2 ^ 7) 0x1e))
        (word_and (shl insn 4) (2 ^ 11)))
      13

-- `if (rd != 0) s->reg[rd] = val`
unfoldable pub set_reg : RiscvCpu → ℕ → ℕ → RiscvCpu
set_reg s rd val = if rd == 0 then s else record s { reg = λ r. if r == rd then val else s.reg r }

abbrev pub bool_word : Bool → ℕ
bool_word b = if b then 1 else 0

-- The value of an instruction with an immediate operand; `none` where it is illegal.
unfoldable pub op_imm_value : ℕ → ℕ → ℕ → Option ℕ
op_imm_value funct3 x imm =
    if funct3 == 0
    then some (size_add x imm)
    else if funct3 == 1
    then if word_and imm (word_not 31) == 0 then some (shl x (imm % 2 ^ 5)) else none
    else if funct3 == 2
    then some (bool_word (slt x imm))
    else if funct3 == 3
    then some (bool_word (ltb x imm))
    else if funct3 == 4
    then some (word_xor x imm)
    else if funct3 == 5
    then if word_and imm (word_not (word_or 31 0x400)) == 0
      then if bit imm 10 == 1 then some (asr x (imm % 2 ^ 5)) else some (x / 2 ^ (imm % 2 ^ 5))
      else none
    else if funct3 == 6
    then some (word_or x imm)
    else some (word_and x imm)

unfoldable pub muldiv_value : ℕ → ℕ → ℕ → ℕ
muldiv_value funct3 a b =
    if funct3 == 0
    then a * b % 2 ^ 32
    else if funct3 == 1
    then mulh32 a b
    else if funct3 == 2
    then mulhsu32 a b
    else if funct3 == 3
    then mulhu32 a b
    else if funct3 == 4
    then div32 a b
    else if funct3 == 5
    then divu32 a b
    else if funct3 == 6
    then rem32 a b
    else remu32 a b

-- The value of an instruction on two registers, by its funct3 with the bit 30 in front.
unfoldable pub op_value : ℕ → ℕ → ℕ → Option ℕ
op_value selector a b =
    if selector == 0
    then some (size_add a b)
    else if selector == 8
    then some (size_sub a b)
    else if selector == 1
    then some (shl a (b % 2 ^ 5))
    else if selector == 2
    then some (bool_word (slt a b))
    else if selector == 3
    then some (bool_word (ltb a b))
    else if selector == 4
    then some (word_xor a b)
    else if selector == 5
    then some (a / 2 ^ (b % 2 ^ 5))
    else if selector == 13
    then some (asr a (b % 2 ^ 5))
    else if selector == 6
    then some (word_or a b)
    else if selector == 7
    then some (word_and a b)
    else none

unfoldable pub lui : RiscvCpu → ℕ → ℕ → Outcome
lui s pc insn = next (set_reg s (rd_of insn) (insn / 2 ^ 12 * 2 ^ 12)) (size_add pc 4)

unfoldable pub auipc : RiscvCpu → ℕ → ℕ → Outcome
auipc s pc insn =
    next (set_reg s (rd_of insn) (size_add pc (insn / 2 ^ 12 * 2 ^ 12))) (size_add pc 4)

unfoldable pub jal : RiscvCpu → ℕ → ℕ → Outcome
jal s pc insn =
    jump (record (set_reg s (rd_of insn) (size_add pc 4)) { pc = size_add pc (imm_j insn) })

unfoldable pub jalr : RiscvCpu → ℕ → ℕ → Outcome
jalr s pc insn =
    let target = size_add (s.reg (rs1_of insn)) (imm_i insn) / 2 * 2 in
    jump (set_reg (record s { pc = target }) (rd_of insn) (size_add pc 4))

-- Whether a branch is taken; `none` where it is illegal.
unfoldable pub branch_taken : ℕ → ℕ → ℕ → Option Bool
branch_taken funct3 a b =
    let flip = funct3 % 2 == 1 in
    if funct3 / 2 == 0
    then some (if flip then not (a == b) else a == b)
    else if funct3 / 2 == 2
    then some (if flip then not (slt a b) else slt a b)
    else if funct3 / 2 == 3
    then some (if flip then not (ltb a b) else ltb a b)
    else none

unfoldable pub branch : RiscvCpu → ℕ → ℕ → Outcome
branch s pc insn =
    elim (branch_taken (funct3_of insn) (s.reg (rs1_of insn)) (s.reg (rs2_of insn))) [
      | none ↦ illegal
      | some taken ↦
          if taken
          then jump (record s { pc = size_add pc (imm_b insn) })
          else next s (size_add pc 4)
    ]

-- The end of a case with a value for `rd`.
unfoldable pub finish : RiscvCpu → ℕ → ℕ → Option ℕ → Outcome
finish s pc insn none = illegal
finish s pc insn (some val) = next (set_reg s (rd_of insn) val) (size_add pc 4)

unfoldable pub op_imm : RiscvCpu → ℕ → ℕ → Outcome
op_imm s pc insn =
    finish s pc insn (op_imm_value (funct3_of insn) (s.reg (rs1_of insn)) (imm_i insn))

unfoldable pub op : RiscvCpu → ℕ → ℕ → Outcome
op s pc insn =
    let imm = insn / 2 ^ 25 in
    let a = s.reg (rs1_of insn) in
    let b = s.reg (rs2_of insn) in
    if imm == 1
    then finish s pc insn (some (muldiv_value (funct3_of insn) a b))
    else if word_and imm (word_not 0x20) == 0
    then finish s pc insn
        (op_value (word_or (funct3_of insn) (word_and (insn / 2 ^ 27) (2 ^ 3))) a b)
    else illegal

-- The cases of the switch on the opcode that these are; `none` is every other case.
unfoldable pub exec_integer : RiscvCpu → ℕ → ℕ → Option Outcome
exec_integer s pc insn =
    let opcode = insn % 2 ^ 7 in
    if opcode == 0x37
    then some (lui s pc insn)
    else if opcode == 0x17
    then some (auipc s pc insn)
    else if opcode == 0x6f
    then some (jal s pc insn)
    else if opcode == 0x67
    then some (jalr s pc insn)
    else if opcode == 0x63
    then some (branch s pc insn)
    else if opcode == 0x13
    then some (op_imm s pc insn)
    else if opcode == 0x33
    then some (op s pc insn)
    else none
