-- ===== src/Tests/Runs.antt =====
-- The interpreter on the machine of the other tests.
use esp32_tinyemu.Prelude.{
  ℕ, ◌+◌, ◌-◌, ◌≡◌, ◌&&◌, if◌then◌else◌, leb, none, arith, refl, bit, Always, absent,
}
use esp32_tinyemu.Iomem.Same.{same_map}
use esp32_tinyemu.Bus.{Target}
use esp32_tinyemu.Bus.Keeps.{KeepsCore, IsGood}
use esp32_tinyemu.Exec.{Environment, get_field1}
use esp32_tinyemu.Exec.Fields.{get_field1_lem}
use esp32_tinyemu.Exec.Step.{exec}
use esp32_tinyemu.Exec.Keeps.{GoodExit}
use esp32_tinyemu.Exec.Keeps.Step.{FloatKeeps, exec-Well}
use esp32_tinyemu.Tests.Instance.{libraries}
use esp32_tinyemu.Tests.Machine.{core}
use esp32_tinyemu.Tests.Translation.{banks}

-- No instruction set but the integers'.
abbrev soft : Environment libraries ℕ
soft = record { unset = λ t. 0; float_op = λ s insn. none }

soft_floats : FloatKeeps soft
soft_floats s insn h = absent

banks_devices : KeepsCore banks
banks_devices = record { reads = λ i offset size s w h. h; writes = λ i offset val size s w h. h }

abbrev running : Target libraries ℕ
running = record { core = core; mem_map = banks; devices = 5 }

running-IsGood : IsGood banks running
running-IsGood = record {
  sound = record {
    words = record { reg_lt = λ r. omega arith; reg_zero = refl };
    pc_even = refl;
    mtvec_even = refl;
    stvec_even = refl;
    mepc_even = refl;
    sepc_even = refl;
  };
  ranges = same_map banks;
}

-- `lw x1, 0(x2)`
exec-Well_example : Always (GoodExit banks banks_devices) (exec soft running 4096 7 0x12083)
exec-Well_example =
    exec-Well banks banks_devices soft soft_floats running 4096 7 0x12083 (omega arith)
      (omega arith) refl running-IsGood

-- Bit 11 of `c.j`, which is bit 4 of its offset.
get_field1_lem_example :
    bit (get_field1 0xa801 11 4 4) 4 ≡ (if leb 4 4 && leb 4 4 then bit 0xa801 (11 + 4 - 4) else 0)
get_field1_lem_example = get_field1_lem 0xa801 11 4 4 4 (omega arith) (omega arith) (omega arith)
