-- ===== src/Exec.antt =====
-- The interpreter of lib/tinyemu/riscv_cpu_template.h for XLEN 32: how the case of an instruction
-- ends, and what the cases share. The floating point operations are a parameter.
pub mod Memory
pub mod System
pub mod Compressed
pub mod Step
pub mod Fields
pub mod Loop
pub mod Keeps
pub mod Rounds
use esp32_tinyemu.Prelude.{
  ℕ, zero, suc, ◌+◌, ◌-◌, ◌*◌, ◌/◌, ◌%◌, ◌^◌, Bool, true, false, ◌==◌, if◌then◌else◌, leb, List, [],
  ◌∷◌, Option, none, some, word_and, word_or,
}
use esp32_tinyemu.LruCache.NodeList.{Libraries}
use esp32_tinyemu.Cpu.{RiscvCpu}
use esp32_tinyemu.Bus.{Target, Loaded, value, fault}
use esp32_tinyemu.Interp.{Outcome, set_reg}
use esp32_tinyemu.Interp as Integer

abbrev pub cause_illegal_instruction : ℕ
cause_illegal_instruction = 2

abbrev pub cause_breakpoint : ℕ
cause_breakpoint = 3

abbrev pub cause_user_ecall : ℕ
cause_user_ecall = 8

-- What the model leaves open: the value of a variable that a read left as it was, and the floating
-- point instructions, which change the core or are illegal.
pub record Environment (lib : Libraries) (W : Type 0) : Type 0 where
  pub unset : Target lib W → ℕ
  pub float_op : RiscvCpu → ℕ → Option RiscvCpu

-- How the case of an instruction ends: with NEXT_INSN or C_NEXT_INSN and the instruction's length,
-- with JUMP_INSN, at `done_interp`, at `exception` or at `illegal_insn`.
pub data Exit (lib : Libraries) (W : Type 0) : Type 0 where
  next : Target lib W → ℕ → Exit lib W
  jump : Target lib W → Exit lib W
  done : Target lib W → Exit lib W
  exception : Target lib W → Exit lib W
  illegal : Target lib W → Exit lib W

unfoldable pub get_field1 : ℕ → ℕ → ℕ → ℕ → ℕ
get_field1 val src_pos dst_pos dst_pos_max =
    let mask = (2 ^ (dst_pos_max - dst_pos + 1) - 1) * 2 ^ dst_pos in
    if leb src_pos dst_pos
    then word_and (val * 2 ^ (dst_pos - src_pos) % 2 ^ 32) mask
    else word_and (val / 2 ^ (src_pos - dst_pos)) mask

-- `get_field1(val, ..) | get_field1(val, ..) | ..`
unfoldable pub fields : ℕ → List (ℕ × ℕ × ℕ) → ℕ
fields val [] = 0
fields val ((src_pos, dst_pos, dst_pos_max) ∷ rest) =
    word_or (get_field1 val src_pos dst_pos dst_pos_max) (fields val rest)

module _ {lib : Libraries} {W : Type 0} where
  abbrev pub with_reg : Target lib W → ℕ → ℕ → Target lib W
  with_reg t rd val = record t { core = set_reg t.core rd val }

  abbrev pub with_pc : Target lib W → ℕ → Target lib W
  with_pc t pc = record t { core = record t.core { pc = pc } }

  abbrev pub with_pending : Target lib W → ℕ → Target lib W
  with_pending t cause = record t { core = record t.core { pending_exception = some cause } }

  -- `target_read_u<width>` into a variable, and what follows where it returns 0.
  unfoldable pub load_then :
      Environment lib W
      → ℕ
      → Option (Loaded × Target lib W)
      → (ℕ → Target lib W → Option (Exit lib W))
      → Option (Exit lib W)
  load_then env width none k = none
  load_then env width (some (fault, t)) k = some (exception t)
  load_then env width (some (value none, t)) k = k (env.unset t % 2 ^ width) t
  load_then env width (some (value (some val), t)) k = k (val % 2 ^ width) t

  -- A write and what follows where it returns 0.
  unfoldable pub store_then :
      Option (Bool × Target lib W) → (Target lib W → Option (Exit lib W)) → Option (Exit lib W)
  store_then none k = none
  store_then (some (false, t)) k = some (exception t)
  store_then (some (true, t)) k = k t

  -- The end of an integer instruction.
  unfoldable pub lift : Target lib W → Outcome → Exit lib W
  lift t (Integer.next s pc) = next (record t { core = s }) 4
  lift t (Integer.jump s) = jump (record t { core = s })
  lift t Integer.illegal = illegal t
