-- ===== src/Machine.antt =====
-- lib/tinyemu/riscv_machine.c: the interrupt controller (PLIC), the timer (CLINT) and the host
-- interface (HTIF) of the machine. Accesses have 32 bits, as their `assert` demands.
pub mod Plic
pub mod Registers
use esp32_tinyemu.Prelude.{
  ℕ, suc, ◌+◌, ◌-◌, ◌*◌, ◌/◌, ◌%◌, ◌^◌, List, [], ◌∷◌, ◌++◌, Option, none, some, Bool, true, false,
  ◌==◌, if◌then◌else◌, ltb, size_sub, bit, word_and, word_or, word_not, single,
}
use esp32_tinyemu.Cpu.{RiscvCpu, set_mip, reset_mip, clear, ctz32}

abbrev pub mip_mtip : ℕ
mip_mtip = 2 ^ 7

-- `MIP_MEIP | MIP_SEIP`
abbrev pub mip_external : ℕ
mip_external = 2 ^ 11 + 2 ^ 9

abbrev pub plic_hart_base : ℕ
plic_hart_base = 2097152

-- The members of `struct RISCVMachine` that the three devices use, and what was written to the
-- console. `rtc_get_time` reads the host's clock or the core's counter and is an argument.
pub record RiscvMachine : Type 0 where
  pub cpu_state : RiscvCpu
  pub timecmp : ℕ
  pub plic_pending_irq : ℕ
  pub plic_served_irq : ℕ
  pub htif_tohost : ℕ
  pub htif_fromhost : ℕ
  pub console : List ℕ

-- `s->plic_pending_irq & ~s->plic_served_irq`
unfoldable pub open_irqs : RiscvMachine → ℕ
open_irqs m = clear m.plic_pending_irq m.plic_served_irq

unfoldable pub plic_update_mip : RiscvMachine → RiscvMachine
plic_update_mip m = record m {
  cpu_state =
      if open_irqs m == 0
      then reset_mip m.cpu_state mip_external
      else set_mip m.cpu_state mip_external;
}

-- The read of the claim register, when an interrupt is open.
unfoldable pub plic_claim : RiscvMachine → ℕ × RiscvMachine
plic_claim m =
    let i = ctz32 (open_irqs m) in
    (i + 1, plic_update_mip (record m { plic_served_irq = word_or m.plic_served_irq (single i) }))

unfoldable pub plic_read : RiscvMachine → ℕ → ℕ × RiscvMachine
plic_read m offset =
    if offset == plic_hart_base + 4
    then if open_irqs m == 0 then (0, m) else plic_claim m
    else (0, m)

unfoldable pub plic_write : RiscvMachine → ℕ → ℕ → RiscvMachine
plic_write m offset val =
    let irq = size_sub val 1 in
    if offset == plic_hart_base + 4
    then if ltb irq 32
      then plic_update_mip (record m { plic_served_irq = clear m.plic_served_irq (single irq) })
      else m
    else m

unfoldable pub plic_set_irq : RiscvMachine → ℕ → Bool → RiscvMachine
plic_set_irq m irq_num state =
    let mask = single (irq_num - 1) in
    plic_update_mip (record m {
      plic_pending_irq =
          if state then word_or m.plic_pending_irq mask else clear m.plic_pending_irq mask;
    })

-- The low and the high word of a 64-bit register.
unfoldable pub low_word : ℕ → ℕ
low_word r = r % 2 ^ 32

unfoldable pub high_word : ℕ → ℕ
high_word r = r / 2 ^ 32 % 2 ^ 32

-- `(r & ~0xffffffff) | val`: the mask is an `unsigned int`, 0, and nothing of the register is kept.
unfoldable pub with_low : ℕ → ℕ → ℕ
with_low r val = r * 0 + val

-- `(r & 0xffffffff) | ((uint64_t)val << 32)`
unfoldable pub with_high : ℕ → ℕ → ℕ
with_high r val = r % 2 ^ 32 + val * 2 ^ 32

unfoldable pub clint_read : ℕ → RiscvMachine → ℕ → ℕ
unfolding low_word high_word
clint_read time m offset =
    if offset == 49144
    then low_word time
    else if offset == 49148
    then high_word time
    else if offset == 16384
    then low_word m.timecmp
    else if offset == 16388
    then high_word m.timecmp
    else 0

unfoldable pub clint_write : RiscvMachine → ℕ → ℕ → RiscvMachine
unfolding with_low with_high reset_mip
clint_write m offset val =
    if offset == 16384
    then record m { timecmp = with_low m.timecmp val; cpu_state = reset_mip m.cpu_state mip_mtip }
    else if offset == 16388
    then record m { timecmp = with_high m.timecmp val; cpu_state = reset_mip m.cpu_state mip_mtip }
    else m

unfoldable pub htif_read : RiscvMachine → ℕ → ℕ
unfolding low_word high_word
htif_read m offset =
    if offset == 0
    then low_word m.htif_tohost
    else if offset == 4
    then high_word m.htif_tohost
    else if offset == 8
    then low_word m.htif_fromhost
    else if offset == 12
    then high_word m.htif_fromhost
    else 0

-- `none` where the code calls `exit(0)`.
unfoldable pub htif_handle_cmd : RiscvMachine → Option RiscvMachine
htif_handle_cmd m =
    let device = m.htif_tohost / 2 ^ 56 in
    let cmd = m.htif_tohost / 2 ^ 48 % 2 ^ 8 in
    if m.htif_tohost == 1
    then none
    else if device == 1
    then if cmd == 1
      then some (record m {
        console = m.console ++ (m.htif_tohost % 2 ^ 8 ∷ []);
        htif_tohost = 0;
        htif_fromhost = device * 2 ^ 56 + cmd * 2 ^ 48;
      })
      else if cmd == 0
      then some (record m { htif_tohost = 0 })
      else some m
    else some m

unfoldable pub htif_write : RiscvMachine → ℕ → ℕ → Option RiscvMachine
unfolding with_low with_high htif_handle_cmd
htif_write m offset val =
    if offset == 0
    then some (record m { htif_tohost = with_low m.htif_tohost val })
    else if offset == 4
    then htif_handle_cmd (record m { htif_tohost = with_high m.htif_tohost val })
    else if offset == 8
    then some (record m { htif_fromhost = with_low m.htif_fromhost val })
    else if offset == 12
    then some (record m { htif_fromhost = with_high m.htif_fromhost val })
    else some m
