-- ===== src/Tests/Machine.antt =====
-- A core in supervisor level with two interrupts, and a machine around it.
use esp32_tinyemu.Prelude.{
  ℕ, ◌+◌, ◌*◌, ◌^◌, ◌≤◌, ◌≡◌, ◌⊎◌, inl, [], none, true, false, if◌then◌else◌, ◌==◌, arith, bit,
  word_or, word_and, word_not, digits, refl,
}
use esp32_tinyemu.Cpu.{
  get_mstatus, set_mstatus, mstatus_mask, RiscvCpu, clear, delegated, raise_exception2, handle_mret,
  handle_sret, get_pending_irq_mask, raise_interrupt,
}
use esp32_tinyemu.Cpu.Traps.{trap_mret_lem, trap_sret_lem, raise_level_lem}
use esp32_tinyemu.Cpu.Interrupts.{is_enabled, pending_lem, raise_interrupt_lem}
use esp32_tinyemu.Cpu.Status.{get-set_mstatus}
use esp32_tinyemu.Machine.{
  RiscvMachine, plic_hart_base, open_irqs, plic_read, plic_write, plic_set_irq, clint_read,
  clint_write,
}
use esp32_tinyemu.Machine.Plic.{IsConsistent, plic-IsConsistent, plic_claim_lem}
use esp32_tinyemu.Machine.Registers.{timecmp_lem}

abbrev pub core : RiscvCpu
core = record {
  pc = 4096;
  reg = λ r. 0;
  fp_reg = λ r. 0;
  fflags = 0;
  frm = 0;
  mxl = 1;
  insn_counter = 7;
  pending_exception = none;
  pending_tval = 0;
  mscratch = 0;
  mhartid = 0;
  misa = 0;
  mcounteren = 1;
  sscratch = 0;
  satp = 0;
  scounteren = 0;
  load_res = 0;
  priv = 1;
  fs = 1;
  power_down_flag = false;
  mstatus = 2 + 8;
  mtvec = 64;
  mepc = 0;
  mcause = 0;
  mtval = 0;
  mie = 2 ^ 7 + 2 ^ 9;
  mip = 2 ^ 7 + 2 ^ 9;
  medeleg = 2 ^ 8;
  mideleg = 2 ^ 9;
  stvec = 128;
  sepc = 0;
  scause = 0;
  stval = 0;
}

abbrev board : RiscvMachine
board = record {
  cpu_state = record core { mip = 2 ^ 9 + 2 ^ 11 };
  timecmp = 0;
  plic_pending_irq = 2 + 4;
  plic_served_irq = 4;
  htif_tohost = 1;
  htif_fromhost = 0;
  console = [];
}

kept : delegated core 2 ≡ false
unfolding delegated bit
kept = refl

passed_on : delegated core 8 ≡ true
unfolding delegated bit
passed_on = refl

board-IsConsistent : IsConsistent board
unfolding bit open_irqs clear word_and digits word_not
board-IsConsistent = record { meip = refl; seip = refl }

trap_mret_lem_example :
    let r = handle_mret (raise_exception2 core 2 7) in
    (r.priv ≡ 1) × (r.pc ≡ 4096) × (bit r.mstatus 1 ≡ bit 10 1)
trap_mret_lem_example =
    trap_mret_lem core 2 7 1 (inl (omega arith)) kept (omega arith) (omega arith) (omega arith)
      (omega arith)

trap_sret_lem_example :
    let r = handle_sret (raise_exception2 core 8 0) in
    (r.priv ≡ 1) × (r.pc ≡ 4096) × (bit r.mstatus 3 ≡ bit 10 3)
trap_sret_lem_example = trap_sret_lem core 8 0 3 passed_on (omega arith) (omega arith) (omega arith)

raise_level_lem_example :
    let r = raise_exception2 core 2 7 in
    (1 ≤ r.priv)
    × (r.pc ≡ (if delegated core 2 then 128 else 64))
    × (r.priv ≡ (if delegated core 2 then 1 else 3))
    × (bit r.mstatus r.priv ≡ 0)
raise_level_lem_example = raise_level_lem core 2 7 (omega arith)

pending_lem_example :
    bit (get_pending_irq_mask core) 9
    ≡ (if is_enabled core 9 then bit core.mip 9 * bit core.mie 9 else 0)
pending_lem_example = pending_lem core 9 (omega arith)

raise_interrupt_lem_example :
    let mask = get_pending_irq_mask core in
    let (taken, s') = raise_interrupt core in
    ((taken ≡ false) × (s' ≡ core) × (bit mask 9 ≡ 0))
    ⊎ ((taken ≡ true)
        × ((k : ℕ) × (bit mask k ≡ 1)
            × ((k ≤ 9) ⊎ (bit mask 9 ≡ 0))
            × (s' ≡ raise_exception2 core (word_or k (2 ^ 31)) 0)))
raise_interrupt_lem_example = raise_interrupt_lem core 9 (omega arith)

plic-IsConsistent_example :
    IsConsistent (plic_read board (plic_hart_base + 4)).1
    × IsConsistent (plic_write board (plic_hart_base + 4) 3)
    × IsConsistent (plic_set_irq board 5 true)
plic-IsConsistent_example = plic-IsConsistent board (plic_hart_base + 4) 3 5 true board-IsConsistent

plic_claim_lem_example :
    let (val, m') = plic_read board (plic_hart_base + 4) in
    ((val ≡ 0) × (m' ≡ board) × (bit (open_irqs board) 1 ≡ 0))
    ⊎ ((k : ℕ) × (val ≡ k + 1)
        × (bit (open_irqs board) k ≡ 1)
        × ((k ≤ 1) ⊎ (bit (open_irqs board) 1 ≡ 0))
        × (bit (open_irqs m') 1 ≡ (if 1 == k then 0 else bit (open_irqs board) 1)))
plic_claim_lem_example = plic_claim_lem board 1 (omega arith)

timecmp_lem_example :
    let m' = clint_write (clint_write board 16384 5) 16388 6 in
    let m'' = clint_write (clint_write board 16388 6) 16384 5 in
    (m'.timecmp ≡ 6 * 2 ^ 32 + 5)
    × (clint_read 9 m' 16384 ≡ 5)
    × (clint_read 9 m' 16388 ≡ 6)
    × (bit m'.cpu_state.mip 7 ≡ 0)
    × (clint_read 9 m'' 16384 ≡ 5)
    × (clint_read 9 m'' 16388 ≡ 0)
timecmp_lem_example = timecmp_lem board 5 6 9 (omega arith) (omega arith)

low_clear : (bit core.mstatus 13 ≡ 0) × (bit core.mstatus 14 ≡ 0)
unfolding bit
low_clear = (refl, refl)

get-set_mstatus_example :
    bit (get_mstatus (set_mstatus core (2 ^ 13 + 1)) mstatus_mask) 13
    ≡ (if bit mstatus_mask 13 == 1 then bit (2 ^ 13 + 1) 13 else bit core.mstatus 13)
      * bit mstatus_mask 13
get-set_mstatus_example =
    get-set_mstatus core (2 ^ 13 + 1) mstatus_mask 13 low_clear.0 low_clear.1 (omega arith)
