-- ===== src/Exec/System.antt =====
-- The CSR instructions, the instructions that leave the interpreter's loop, and the fences.
use esp32_tinyemu.Prelude.{
  ℕ, ◌+◌, ◌/◌, ◌%◌, ◌^◌, Bool, true, not, ◌==◌, if◌then◌else◌, ltb, none, some, size_add, bit,
  word_and, word_or,
}
use esp32_tinyemu.LruCache.NodeList.{Libraries}
use esp32_tinyemu.Cpu.{RiscvCpu, clear, handle_sret, handle_mret, prv_u, prv_s, prv_m}
use esp32_tinyemu.Cpu.Csr.{csr_read, csr_write}
use esp32_tinyemu.Bus.{Target}
use esp32_tinyemu.Interp.{rd_of, rs1_of, funct3_of, set_reg}
use esp32_tinyemu.Exec.{
  Exit, next, jump, done, exception, illegal, with_pc, with_pending, cause_breakpoint,
  cause_user_ecall,
}

module _ {lib : Libraries} {W : Type 0} where
  abbrev pub with_core : Target lib W → RiscvCpu → Target lib W
  with_core t s = record t { core = s }

  -- The end of a CSR instruction, by the result of `csr_write`: 1 leaves the loop, and 2 says that the
  -- translation changed.
  unfoldable pub csr_finish : Target lib W → ℕ → ℕ → ℕ → ℕ → Exit lib W
  csr_finish t pc rd val2 err =
      let t' = with_core t (set_reg t.core rd (val2 % 2 ^ 32)) in
      if err == 0
      then next t' 4
      else if err == 2
      then jump (with_pc t' (size_add pc 4))
      else done (with_pc t' (size_add pc 4))

  -- `csrrw` with the operand `val`.
  unfoldable pub csr_swap : Target lib W → ℕ → ℕ → ℕ → ℕ → Exit lib W
  csr_swap t pc rd csr val = elim (csr_read t.core csr true) [
    | none ↦ illegal t
    | some val2 ↦ elim (csr_write t.core csr val) [
      | none ↦ illegal t
      | some (err, s) ↦ csr_finish (with_core t s) pc rd val2 err
    ]
  ]

  -- `csrrs` and `csrrc`, which write unless the source is register 0.
  unfoldable pub csr_change : Target lib W → ℕ → ℕ → ℕ → Bool → Bool → ℕ → Exit lib W
  csr_change t pc rd csr sets writes val = elim (csr_read t.core csr writes) [
    | none ↦ illegal t
    | some val2 ↦
        let new = if sets then word_or (val2 % 2 ^ 32) val else clear (val2 % 2 ^ 32) val in
        if writes
        then elim (csr_write t.core csr new) [
          | none ↦ illegal t
          | some (err, s) ↦ csr_finish (with_core t s) pc rd val2 err
        ]
        else csr_finish t pc rd val2 0
  ]

  -- The instructions with funct3 0, by their upper 12 bits.
  unfoldable pub exec_privileged : Target lib W → ℕ → ℕ → Exit lib W
  exec_privileged t pc insn =
      let imm = insn / 2 ^ 20 in
      let s = t.core in
      let plain = word_and insn 0xfff80 == 0 in
      if imm == 0
      then if plain then exception (with_pending t (cause_user_ecall + s.priv)) else illegal t
      else if imm == 1
      then if plain then exception (with_pending t cause_breakpoint) else illegal t
      else if imm == 0x102
      then if not plain
        then illegal t
        else if ltb s.priv prv_s
        then illegal t
        else done (with_core t (handle_sret (record s { pc = pc })))
      else if imm == 0x302
      then if not plain
        then illegal t
        else if ltb s.priv prv_m
        then illegal t
        else done (with_core t (handle_mret (record s { pc = pc })))
      else if imm == 0x105
      then if not (word_and insn 0x7f80 == 0)
        then illegal t
        else if s.priv == prv_u
        then illegal t
        else if word_and s.mip s.mie == 0
        then done (with_core t (record s { power_down_flag = true; pc = size_add pc 4 }))
        else next t 4
      else if imm / 2 ^ 5 == 9
      then if not (word_and insn 0x7f80 == 0)
        then illegal t
        else if s.priv == prv_u
        then illegal t
        else jump (with_pc t (size_add pc 4))
      else illegal t

  -- The opcode 0x73. The CSR instructions update the counter first, to `counter`.
  unfoldable pub exec_system : Target lib W → ℕ → ℕ → ℕ → Exit lib W
  exec_system t pc counter insn =
      let funct3 = funct3_of insn in
      let rs1 = rs1_of insn in
      let val = if bit funct3 2 == 1 then rs1 else t.core.reg rs1 in
      let csr = insn / 2 ^ 20 in
      let counted = with_core t (record t.core { insn_counter = counter }) in
      if funct3 % 4 == 1
      then csr_swap counted pc (rd_of insn) csr val
      else if funct3 % 4 == 0
      then exec_privileged t pc insn
      else csr_change counted pc (rd_of insn) csr (funct3 % 4 == 2) (not (rs1 == 0)) val

  -- The opcode 0x0f, the fences.
  unfoldable pub exec_fence : Target lib W → ℕ → Exit lib W
  exec_fence t insn =
      if funct3_of insn == 0
      then if word_and insn 0xf00fff80 == 0 then next t 4 else illegal t
      else if funct3_of insn == 1
      then if insn == 0x100f then next t 4 else illegal t
      else illegal t
