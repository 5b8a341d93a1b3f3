-- ===== src/Exec/Keeps/Step.antt =====
-- Every instruction keeps the invariant.
use esp32_tinyemu.Prelude.{
  ℕ, ◌%◌, ◌^◌, ◌<◌, ◌≡◌, ◌==◌, Option, none, some, Always, present, Always-if,
}
use esp32_tinyemu.LruCache.NodeList.{Libraries}
use esp32_tinyemu.Cpu.{RiscvCpu}
use esp32_tinyemu.Interp.{Outcome, exec_integer}
use esp32_tinyemu.Interp as Integer
use esp32_tinyemu.Interp.Registers.{cpu_after}
use esp32_tinyemu.Interp.Core.{IsCore, exec_integer-IsCore}
use esp32_tinyemu.Iomem.{PhysMemoryMap}
use esp32_tinyemu.Bus.{Target}
use esp32_tinyemu.Bus.Keeps.{KeepsCore, IsGood, recored}
use esp32_tinyemu.Exec.{Environment, next, illegal, lift}
use esp32_tinyemu.Exec.Step.{is_float_op, exec_float, exec}
use esp32_tinyemu.Exec.Keeps.{GoodExit, good_jump, good_illegal, next4}
use esp32_tinyemu.Exec.Keeps.Memory.{
  Well, exec_load-Well, exec_store-Well, exec_fp_load-Well, exec_fp_store-Well, exec_atomic-Well,
}
use esp32_tinyemu.Exec.Keeps.System.{exec_system-Well, exec_fence-Well}
use esp32_tinyemu.Exec.Keeps.Compressed.{quadrant0-Well, quadrant1-GoodExit, quadrant2-Well}

-- The floating point operations keep the core's invariant.
abbrev pub FloatKeeps : {lib : Libraries} {W : Type 0} → Environment lib W → Type 0
FloatKeeps env = (s : RiscvCpu) (insn : ℕ) → IsCore s → Always IsCore (env.float_op s insn)

module _ {lib : Libraries} {W : Type 0} (map0 : PhysMemoryMap lib (RiscvCpu × W))
    (devices : KeepsCore map0) (env : Environment lib W) (floats : FloatKeeps env) where
  exec_float-GoodExit :
      (t : Target lib W) (insn : ℕ) → IsGood map0 t → GoodExit map0 devices (exec_float env t insn)
  unfolding exec_float
  exec_float-GoodExit t insn g = after (env.float_op t.core insn) (floats t.core insn g.sound)
    where
      after :
          (o : Option RiscvCpu)
          → Always IsCore o
          → GoodExit map0 devices
              (elim o [ none ↦ illegal t | some s ↦ next (record t { core = s }) 4 ])
      after none h = good_illegal g
      after (some s) (present h) = next4 map0 devices _ (recored map0 devices t s g h)

  lifted :
      (t : Target lib W) (o : Option Outcome)
      → IsGood map0 t
      → IsCore (cpu_after t.core o)
      → Well map0 devices
          (elim o [ none ↦ some (illegal t) | some outcome ↦ some (lift t outcome) ])
  unfolding lift
  lifted t none g h = present (good_illegal g)
  lifted t (some (Integer.next s pc)) g h =
      present (next4 map0 devices _ (recored map0 devices t s g h))
  lifted t (some (Integer.jump s)) g h = present (good_jump (recored map0 devices t s g h))
  lifted t (some Integer.illegal) g h = present (good_illegal g)

  -- Every instruction at an even address, where it has a result, keeps the invariant: the registers
  -- words and register 0 at 0, the program counter, the trap vectors and the return addresses even,
  -- and the map's ranges but for the contents of the RAM; one that continues after itself has a length
  -- of two or four bytes. It is supposed that the devices and the floating point operations keep the
  -- core's part.
  pub exec-Well :
      (t : Target lib W) (pc counter insn : ℕ)
      → insn < 2 ^ 32
      → pc < 2 ^ 32
      → pc % 2 ≡ 0
      → IsGood map0 t
      → Well map0 devices (exec env t pc counter insn)
  unfolding exec
  exec-Well t pc counter insn li lp ev g =
      let opcode = insn % 2 ^ 7 in
      Always-if (insn % 4 == 0) (quadrant0-Well map0 devices env t insn g) (
        Always-if (insn % 4 == 1) (present (quadrant1-GoodExit map0 devices t pc insn ev g)) (
          Always-if (insn % 4 == 2) (quadrant2-Well map0 devices env t pc insn g) (
            Always-if (opcode == 0x03) (exec_load-Well map0 devices env t insn g) (
              Always-if (opcode == 0x23) (exec_store-Well map0 devices t insn g) (
                Always-if (opcode == 0x73)
                  (present (exec_system-Well map0 devices t pc counter insn ev g))
                  (Always-if (opcode == 0x0f) (present (exec_fence-Well map0 devices t insn g)) (
                    Always-if (opcode == 0x2f) (exec_atomic-Well map0 devices env t insn g) (
                      Always-if (opcode == 0x07) (exec_fp_load-Well map0 devices env t insn g) (
                        Always-if (opcode == 0x27) (exec_fp_store-Well map0 devices t insn g) (
                          Always-if (is_float_op opcode) (present (exec_float-GoodExit t insn g)) (
                            lifted t (exec_integer t.core pc insn) g
                              (exec_integer-IsCore t.core pc insn li lp ev g.sound))))))))))))
