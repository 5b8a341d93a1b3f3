-- ===== src/Exec/Loop.antt =====
-- The loop of `riscv_cpu_interp_x32`: fetching, interrupts, and how a round of the loop ends.
-- `rounds` is the number of times that the loop has decremented `n_cycles`, from one more than the
-- argument `n`; `base` is the instruction counter at the start.
use esp32_tinyemu.Prelude.{
  ℕ, zero, suc, ◌+◌, ◌-◌, ◌*◌, ◌%◌, ◌^◌, Bool, false, ◌==◌, if◌then◌else◌, leb, Option, none, some,
  size_add, size_sub, word_and,
}
use esp32_tinyemu.LruCache.NodeList.{Libraries}
use esp32_tinyemu.Cpu.{RiscvCpu, raise_exception2, raise_interrupt}
use esp32_tinyemu.Bus.{Target, target_read_insn_slow_vmm, get_vmm_insn32}
use esp32_tinyemu.Exec.{
  Environment, Exit, next, jump, done, exception, illegal, with_pc, cause_illegal_instruction,
}
use esp32_tinyemu.Exec.Step.{exec}

-- `code_ptr`, `code_end` and `code_to_pc_addend`
pub record Block : Type 0 where
  pub code_ptr : ℕ
  pub code_end : ℕ
  pub addend : ℕ

-- `GET_PC()`
abbrev pub get_pc : Block → ℕ
get_pc b = size_add b.code_ptr b.addend

-- The block after a jump, which is empty.
abbrev pub no_block : ℕ → Block
no_block pc = record { code_ptr = 0; code_end = 0; addend = pc }

-- `GET_INSN_COUNTER()`
abbrev pub counter_at : ℕ → ℕ → ℕ
counter_at base rounds = (base + 2 ^ 64 - 1 + rounds) % 2 ^ 64

-- How the first half of a round ends: with an instruction, at `the_end`, or at `mmu_exception`.
pub data Fetched (lib : Libraries) (W : Type 0) : Type 0 where
  fetched : Target lib W → Block → ℕ → Fetched lib W
  ending : Target lib W → Fetched lib W
  fetch_fault : Target lib W → ℕ → Fetched lib W

-- How a round ends: with another one, or with the end of the function.
pub data Turn (lib : Libraries) (W : Type 0) : Type 0 where
  again : Target lib W → Block → Turn lib W
  stop : Target lib W → Turn lib W

-- The result of the function: `stopped` where a memory operation has none.
pub data Run (lib : Libraries) (W : Type 0) : Type 0 where
  ended : Target lib W → Run lib W
  stopped out_of_fuel : Run lib W

-- The test for interrupts: whether one was raised.
unfoldable pub check_interrupts : RiscvCpu → Bool × RiscvCpu
check_interrupts s = if word_and s.mip s.mie == 0 then (false, s) else raise_interrupt s

-- The block of the page of `addr`, at its physical address.
abbrev pub page_block : ℕ → ℕ → Block
page_block addr paddr = record {
  code_ptr = paddr;
  code_end = size_add paddr (size_sub 4094 (addr % 2 ^ 12));
  addend = size_sub addr paddr;
}

module _ {lib : Libraries} {W : Type 0} where
  abbrev pub counted : ℕ → ℕ → Target lib W → Target lib W
  counted base rounds t = record t {
    core = record t.core { insn_counter = counter_at base rounds };
  }

  -- From `exception` on, before the counter is stored.
  unfoldable pub raised : Target lib W → ℕ → Target lib W
  raised t pc =
      let s = record t.core { pc = pc } in
      elim s.pending_exception [
        | none ↦ record t { core = s }
        | some cause ↦ record t { core = raise_exception2 s cause s.pending_tval }
      ]

  -- The instruction at the end of a page, of which the second half may lie in another page.
  unfoldable pub fetch_halves : Target lib W → Block → Option (Fetched lib W)
  fetch_halves t b = elim (get_vmm_insn32 t b.code_ptr) [
    | none ↦ none
    | some (full, t1) ↦
        let low = full % 2 ^ 16 in
        if low % 4 == 3
        then elim (target_read_insn_slow_vmm t1 (size_add (get_pc b) 2)) [
          | none ↦ none
          | some (none, t2) ↦ some (fetch_fault t2 (get_pc b))
          | some (some high, t2) ↦ elim (get_vmm_insn32 t2 high) [
            | none ↦ none
            | some (other, t3) ↦ some (fetched t3 b (low + other % 2 ^ 16 * 2 ^ 16))
          ]
        ]
        else some (fetched t1 b low)
  ]

  unfoldable pub fetch_at : Target lib W → Block → Option (Fetched lib W)
  fetch_at t b = elim (get_vmm_insn32 t b.code_ptr) [
    | none ↦ none
    | some (insn, t') ↦ some (fetched t' b (insn % 2 ^ 32))
  ]

  unfoldable pub refill : Target lib W → ℕ → Option (Fetched lib W)
  refill t addr = elim (target_read_insn_slow_vmm t addr) [
    | none ↦ none
    | some (none, t') ↦ some (fetch_fault t' addr)
    | some (some paddr, t') ↦
        let b = page_block addr paddr in
        if leb b.code_end b.code_ptr then fetch_halves t' b else fetch_at t' b
  ]

  unfoldable pub fetch : Target lib W → ℕ → ℕ → Block → Option (Fetched lib W)
  fetch t n rounds b =
      let pc = get_pc b in
      let t0 = with_pc t pc in
      if leb b.code_end b.code_ptr
      then (if leb (n + 1) rounds
          then some (ending t0)
          else let (irq, s) = check_interrupts t0.core in
            if irq
            then some (ending (record t0 { core = s }))
            else refill (record t0 { core = s }) pc)
      else fetch_at t b

  -- The end of a round, by the end of the instruction at `pc`.
  unfoldable pub turn : ℕ → ℕ → Block → ℕ → Exit lib W → Turn lib W
  turn base rounds b insn (next t len) = again t (record b { code_ptr = size_add b.code_ptr len })
  turn base rounds b insn (jump t) = again t (no_block t.core.pc)
  turn base rounds b insn (done t) = stop (counted base (rounds + 1) t)
  turn base rounds b insn (exception t) = stop (counted base (rounds + 1) (raised t (get_pc b)))
  turn base rounds b insn (illegal t) =
      let s = record t.core {
        pending_exception = some cause_illegal_instruction;
        pending_tval = insn;
      } in
      stop (counted base (rounds + 1) (raised (record t { core = s }) (get_pc b)))

module _ {lib : Libraries} {W : Type 0} (env : Environment lib W) where
  unfoldable pub execute : ℕ → ℕ → Fetched lib W → Option (Turn lib W)
  execute base rounds (ending t) = some (stop (counted base rounds t))
  execute base rounds (fetch_fault t pc) = some (stop (counted base (rounds + 1) (raised t pc)))
  execute base rounds (fetched t b insn) =
      elim (exec env t (get_pc b) (counter_at base rounds) insn) [
        | none ↦ none
        | some e ↦ some (turn base rounds b insn e)
      ]

  -- A round of the loop, with its number.
  unfoldable pub round : ℕ → ℕ → ℕ → Target lib W → Block → Option (Turn lib W)
  round n base rounds t b = elim (fetch t n rounds b) [
    | none ↦ none
    | some f ↦ execute base rounds f
  ]

  unfoldable pub run : ℕ → ℕ → ℕ → ℕ → Target lib W → Block → Run lib W
  run zero n base rounds t b = out_of_fuel
  run (suc fuel) n base rounds t b = elim (round n base (rounds + 1) t b) [
    | none ↦ stopped
    | some (stop t') ↦ ended t'
    | some (again t' b') ↦ run fuel n base (rounds + 1) t' b'
  ]

  unfoldable pub riscv_cpu_interp : ℕ → Target lib W → ℕ → Run lib W
  riscv_cpu_interp fuel t n =
      if n == 0
      then ended t
      else let (irq, s) = check_interrupts t.core in
        let start = record t { core = record s { pending_exception = none } } in
        if irq
        then ended (counted t.core.insn_counter 2 (record t { core = s }))
        else run fuel n t.core.insn_counter 0 start (no_block s.pc)
