-- ===== src/Exec/Step.antt =====
-- The switch of the interpreter on the opcode.
use esp32_tinyemu.Prelude.{ℕ, ◌%◌, ◌^◌, Bool, ◌||◌, ◌==◌, if◌then◌else◌, Option, none, some}
use esp32_tinyemu.LruCache.NodeList.{Libraries}
use esp32_tinyemu.Bus.{Target}
use esp32_tinyemu.Interp.{exec_integer}
use esp32_tinyemu.Exec.{Environment, Exit, next, illegal, lift}
use esp32_tinyemu.Exec.Memory.{exec_load, exec_store, exec_atomic, exec_fp_load, exec_fp_store}
use esp32_tinyemu.Exec.System.{exec_system, exec_fence}
use esp32_tinyemu.Exec.Compressed.{quadrant0, quadrant1, quadrant2}

-- The opcodes of the floating point operations.
abbrev pub is_float_op : ℕ → Bool
is_float_op opcode =
    (opcode == 0x43)
    || ((opcode == 0x47) || ((opcode == 0x4b) || ((opcode == 0x4f) || (opcode == 0x53))))

module _ {lib : Libraries} {W : Type 0} (env : Environment lib W) where
  unfoldable pub exec_float : Target lib W → ℕ → Exit lib W
  exec_float t insn = elim (env.float_op t.core insn) [
    | none ↦ illegal t
    | some s ↦ next (record t { core = s }) 4
  ]

  -- The instruction `insn` at the address `pc`, with the instruction counter `counter`; `none` where
  -- a memory operation has no result.
  unfoldable pub exec : Target lib W → ℕ → ℕ → ℕ → Option (Exit lib W)
  exec t pc counter insn =
      let opcode = insn % 2 ^ 7 in
      if insn % 4 == 0
      then quadrant0 env t insn
      else if insn % 4 == 1
      then some (quadrant1 t pc insn)
      else if insn % 4 == 2
      then quadrant2 env t pc insn
      else if opcode == 0x03
      then exec_load env t insn
      else if opcode == 0x23
      then exec_store t insn
      else if opcode == 0x73
      then some (exec_system t pc counter insn)
      else if opcode == 0x0f
      then some (exec_fence t insn)
      else if opcode == 0x2f
      then exec_atomic env t insn
      else if opcode == 0x07
      then exec_fp_load env t insn
      else if opcode == 0x27
      then exec_fp_store t insn
      else if is_float_op opcode
      then some (exec_float t insn)
      else elim (exec_integer t.core pc insn) [
        | none ↦ some (illegal t)
        | some outcome ↦ some (lift t outcome)
      ]
