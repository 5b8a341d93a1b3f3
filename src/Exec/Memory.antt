-- ===== src/Exec/Memory.antt =====
-- The loads, stores and atomic operations, and the loads and stores of floating point registers.
use esp32_tinyemu.Prelude.{
  ℕ, ◌+◌, ◌-◌, ◌/◌, ◌%◌, ◌^◌, not, ◌==◌, if◌then◌else◌, ltb, Option, none, some, size_add, word_and,
  word_or, word_xor,
}
use esp32_tinyemu.LruCache.NodeList.{Libraries}
use esp32_tinyemu.Cpu.{RiscvCpu}
use esp32_tinyemu.Bus.{Target, target_read_slow, target_write_slow}
use esp32_tinyemu.Interp.{rd_of, rs1_of, rs2_of, funct3_of, sext, imm_i}
use esp32_tinyemu.Interp.Alu.{slt}
use esp32_tinyemu.Exec.{Environment, Exit, next, illegal, with_reg, load_then, store_then}

-- The operand of a store.
unfoldable pub imm_s : ℕ → ℕ
imm_s insn = sext (word_or (rd_of insn) (word_and (insn / 2 ^ 20) 0xfe0)) 12

-- The value that an atomic operation stores, from the one in memory and the register.
unfoldable pub amo_op : ℕ → Option (ℕ → ℕ → ℕ)
amo_op code =
    if code == 1
    then some (λ val val2. val2)
    else if code == 0
    then some (λ val val2. size_add val val2)
    else if code == 4
    then some (λ val val2. word_xor val val2)
    else if code == 0xc
    then some (λ val val2. word_and val val2)
    else if code == 0x8
    then some (λ val val2. word_or val val2)
    else if code == 0x10
    then some (λ val val2. if slt val val2 then val else val2)
    else if code == 0x14
    then some (λ val val2. if slt val2 val then val else val2)
    else if code == 0x18
    then some (λ val val2. if ltb val val2 then val else val2)
    else if code == 0x1c
    then some (λ val val2. if ltb val2 val then val else val2)
    else none

-- A floating point register, whose values mark the status as dirty.
abbrev pub set_fp_reg : RiscvCpu → ℕ → ℕ → RiscvCpu
set_fp_reg s rd val = record s { fp_reg = λ r. if r == rd then val else s.fp_reg r; fs = 3 }

-- F32_HIGH
abbrev pub f32_high : ℕ
f32_high = 2 ^ 64 - 2 ^ 32

module _ {lib : Libraries} {W : Type 0} where
  unfoldable pub exec_store : Target lib W → ℕ → Option (Exit lib W)
  exec_store t insn =
      let funct3 = funct3_of insn in
      let addr = size_add (t.core.reg (rs1_of insn)) (imm_s insn) in
      let val = t.core.reg (rs2_of insn) in
      let after = λ (t' : Target lib W). some (next t' 4) in
      if funct3 == 0
      then store_then (target_write_slow t addr (val % 2 ^ 8) 0) after
      else if funct3 == 1
      then store_then (target_write_slow t addr (val % 2 ^ 16) 1) after
      else if funct3 == 2
      then store_then (target_write_slow t addr val 2) after
      else some (illegal t)

  unfoldable pub exec_fp_store : Target lib W → ℕ → Option (Exit lib W)
  exec_fp_store t insn =
      let funct3 = funct3_of insn in
      let addr = size_add (t.core.reg (rs1_of insn)) (imm_s insn) in
      let val = t.core.fp_reg (rs2_of insn) in
      let after = λ (t' : Target lib W). some (next t' 4) in
      if t.core.fs == 0
      then some (illegal t)
      else if funct3 == 2
      then store_then (target_write_slow t addr (val % 2 ^ 32) 2) after
      else if funct3 == 3
      then store_then (target_write_slow t addr val 3) after
      else some (illegal t)

module _ {lib : Libraries} {W : Type 0} (env : Environment lib W) where
  unfoldable pub exec_load : Target lib W → ℕ → Option (Exit lib W)
  exec_load t insn =
      let funct3 = funct3_of insn in
      let addr = size_add (t.core.reg (rs1_of insn)) (imm_i insn) in
      let rd = rd_of insn in
      if funct3 == 0
      then load_then env 8 (target_read_slow t addr 0)
          (λ v t'. some (next (with_reg t' rd (sext v 8)) 4))
      else if funct3 == 1
      then load_then env 16 (target_read_slow t addr 1)
          (λ v t'. some (next (with_reg t' rd (sext v 16)) 4))
      else if funct3 == 2
      then load_then env 32 (target_read_slow t addr 2) (λ v t'. some (next (with_reg t' rd v) 4))
      else if funct3 == 4
      then load_then env 8 (target_read_slow t addr 0) (λ v t'. some (next (with_reg t' rd v) 4))
      else if funct3 == 5
      then load_then env 16 (target_read_slow t addr 1) (λ v t'. some (next (with_reg t' rd v) 4))
      else some (illegal t)

  -- `OP_A(32)`: load-reserved, store-conditional and the operations that read and write.
  unfoldable pub exec_atomic : Target lib W → ℕ → Option (Exit lib W)
  exec_atomic t insn =
      let addr = t.core.reg (rs1_of insn) in
      let code = insn / 2 ^ 27 in
      let rd = rd_of insn in
      let rs2 = rs2_of insn in
      if not (funct3_of insn == 2)
      then some (illegal t)
      else if code == 2
      then if rs2 == 0
        then load_then env 32 (target_read_slow t addr 2) (λ val t'.
          some (next (with_reg (record t' { core = record t'.core { load_res = addr } }) rd val) 4))
        else some (illegal t)
      else if code == 3
      then if t.core.load_res == addr
        then store_then (target_write_slow t addr (t.core.reg rs2) 2)
            (λ t'. some (next (with_reg t' rd 0) 4))
        else some (next (with_reg t rd 1) 4)
      else elim (amo_op code) [
        | none ↦ some (illegal t)
        | some op ↦ load_then env 32 (target_read_slow t addr 2) (λ val t'.
            store_then (target_write_slow t' addr (op val (t'.core.reg rs2)) 2)
              (λ t''. some (next (with_reg t'' rd val) 4)))
      ]

  unfoldable pub exec_fp_load : Target lib W → ℕ → Option (Exit lib W)
  exec_fp_load t insn =
      let funct3 = funct3_of insn in
      let addr = size_add (t.core.reg (rs1_of insn)) (imm_i insn) in
      let rd = rd_of insn in
      if t.core.fs == 0
      then some (illegal t)
      else if funct3 == 2
      then load_then env 32 (target_read_slow t addr 2)
          (λ v t'. some (next (record t' { core = set_fp_reg t'.core rd (v + f32_high) }) 4))
      else if funct3 == 3
      then load_then env 64 (target_read_slow t addr 3)
          (λ v t'. some (next (record t' { core = set_fp_reg t'.core rd v }) 4))
      else some (illegal t)
