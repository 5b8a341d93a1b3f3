-- ===== src/Cpu.antt =====
-- lib/tinyemu/riscv_cpu.c, built with MAX_XLEN 32 and without WITH_TLB: the privilege levels, traps
-- and interrupts of the RISC-V core. A register is a number below 2^32.
pub mod Traps
pub mod Interrupts
pub mod Status
pub mod Csr
use esp32_tinyemu.Prelude.{
  ℕ, zero, suc, ◌+◌, ◌-◌, ◌*◌, ◌/◌, ◌^◌, ◌%◌, Bool, true, false, ◌&&◌, ◌||◌, not, ◌==◌,
  if◌then◌else◌, leb, Option, none, some, bit, word_and, word_or, word_not, single,
}

-- `struct RISCVCPUState`, without the memory map. `cur_xlen` is 32,
-- and the pending exception -1 is `none`.
pub record RiscvCpu : Type 0 where
  pub pc : ℕ
  pub reg : ℕ → ℕ
  pub fp_reg : ℕ → ℕ
  pub fflags : ℕ
  pub frm : ℕ
  pub priv : ℕ
  pub fs : ℕ
  pub mxl : ℕ
  pub insn_counter : ℕ
  pub pending_exception : Option ℕ
  pub pending_tval : ℕ
  pub power_down_flag : Bool
  pub mstatus : ℕ
  pub mtvec : ℕ
  pub mscratch : ℕ
  pub mepc : ℕ
  pub mcause : ℕ
  pub mtval : ℕ
  pub mhartid : ℕ
  pub misa : ℕ
  pub mie : ℕ
  pub mip : ℕ
  pub medeleg : ℕ
  pub mideleg : ℕ
  pub mcounteren : ℕ
  pub stvec : ℕ
  pub sscratch : ℕ
  pub sepc : ℕ
  pub scause : ℕ
  pub stval : ℕ
  pub satp : ℕ
  pub scounteren : ℕ
  pub load_res : ℕ

abbrev pub prv_u : ℕ
prv_u = 0

abbrev pub prv_s : ℕ
prv_s = 1

abbrev pub prv_m : ℕ
prv_m = 3

abbrev pub cause_interrupt : ℕ
cause_interrupt = 2 ^ 31

-- The bit numbers of `mstatus`.
abbrev pub mstatus_sie_shift : ℕ
mstatus_sie_shift = 1

abbrev pub mstatus_mie_shift : ℕ
mstatus_mie_shift = 3

abbrev pub mstatus_spie_shift : ℕ
mstatus_spie_shift = 5

abbrev pub mstatus_mpie_shift : ℕ
mstatus_mpie_shift = 7

abbrev pub mstatus_spp_shift : ℕ
mstatus_spp_shift = 8

abbrev pub mstatus_mpp_shift : ℕ
mstatus_mpp_shift = 11

-- `x & ~mask`
unfoldable pub clear : ℕ → ℕ → ℕ
clear x mask = word_and x (word_not mask)

-- `ctz32` of cutils.h: `n` is the number of rounds left.
unfoldable pub ctz_from : ℕ → ℕ → ℕ → ℕ
ctz_from zero i a = 32
ctz_from (suc n) i a = let rest = ctz_from n (i + 1) a in if bit a i == 1 then i else rest

unfoldable pub ctz32 : ℕ → ℕ
ctz32 a = if a == 0 then 32 else ctz_from 32 0 a

abbrev pub mstatus_fs_shift : ℕ
mstatus_fs_shift = 13

abbrev pub mstatus_fs : ℕ
mstatus_fs = 3 * 2 ^ 13

abbrev pub mstatus_xs : ℕ
mstatus_xs = 3 * 2 ^ 15

-- UIE, SIE, MIE, UPIE, SPIE, MPIE, SPP, MPP, FS, MPRV, SUM and MXR
abbrev pub mstatus_mask : ℕ
mstatus_mask =
    1
    + 2
    + 2 ^ 3
    + 2 ^ 4
    + 2 ^ 5
    + 2 ^ 7
    + 2 ^ 8
    + 3 * 2 ^ 11
    + 3 * 2 ^ 13
    + 2 ^ 17
    + 2 ^ 18
    + 2 ^ 19

-- With the SD bit; `cur_xlen` is 32.
unfoldable pub get_mstatus : RiscvCpu → ℕ → ℕ
get_mstatus s mask =
    let val = word_and (word_or s.mstatus (s.fs * single mstatus_fs_shift)) mask in
    if (word_and val mstatus_fs == mstatus_fs) || (word_and val mstatus_xs == mstatus_xs)
    then word_or val (single 31)
    else val

-- The TLBs are compiled out, and with them the flush on a change of the MMU configuration.
unfoldable pub set_mstatus : RiscvCpu → ℕ → RiscvCpu
set_mstatus s val =
    let mask = clear mstatus_mask mstatus_fs in
    record s { fs = val / 2 ^ 13 % 4; mstatus = word_or (clear s.mstatus mask) (word_and val mask) }

-- The TLBs are compiled out, and `tlb_flush_all` with them.
unfoldable pub set_priv : RiscvCpu → ℕ → RiscvCpu
set_priv s priv = if s.priv == priv then s else record s { priv = priv }

-- Whether a trap is delegated to the supervisor.
unfoldable pub delegated : RiscvCpu → ℕ → Bool
delegated s cause =
    if leb s.priv prv_s
    then if bit cause 31 == 1 then bit s.mideleg (cause % 32) == 1 else bit s.medeleg cause == 1
    else false

-- The cause register's new value.
unfoldable pub cause_value : ℕ → ℕ
cause_value cause =
    let low = word_and cause (2 ^ 31 - 1) in
    if bit cause 31 == 1 then word_or low (single 31) else low

-- `mstatus` when a trap enters: the interrupt enable bit of the old level moves to bit `pie`, the
-- old level to the field at `pp` under `field`, and the enable bit `ie` is cleared.
unfoldable pub enter : RiscvCpu → ℕ → ℕ → ℕ → ℕ → ℕ
unfolding clear
enter s pie pp field ie =
    let saved = word_or (clear s.mstatus (single pie)) (bit s.mstatus s.priv * single pie) in
    let level = word_or (clear saved field) (s.priv * single pp) in clear level (single ie)

unfoldable pub raise_exception2 : RiscvCpu → ℕ → ℕ → RiscvCpu
unfolding set_priv delegated cause_value enter
raise_exception2 s cause tval =
    if delegated s cause
    then record (set_priv
        (record s {
          scause = cause_value cause;
          sepc = s.pc;
          stval = tval;
          mstatus =
              enter s mstatus_spie_shift mstatus_spp_shift (single mstatus_spp_shift)
                mstatus_sie_shift;
        })
        prv_s) { pc = s.stvec }
    else record (set_priv
        (record s {
          mcause = cause_value cause;
          mepc = s.pc;
          mtval = tval;
          mstatus =
              enter s mstatus_mpie_shift mstatus_mpp_shift (3 * single mstatus_mpp_shift)
                mstatus_mie_shift;
        })
        prv_m) { pc = s.mtvec }

-- `mstatus` when a trap returns to level `pp`: bit `pie` becomes the enable bit of that level, is
-- set itself, and the field `field` of the old level is cleared.
unfoldable pub leave : ℕ → ℕ → ℕ → ℕ → ℕ
unfolding clear
leave mstatus pp pie field =
    let enabled = word_or (clear mstatus (single pp)) (bit mstatus pie * single pp) in
    clear (word_or enabled (single pie)) field

unfoldable pub handle_sret : RiscvCpu → RiscvCpu
unfolding set_priv leave
handle_sret s =
    let spp = bit s.mstatus mstatus_spp_shift in
    record (set_priv
      (record s { mstatus = leave s.mstatus spp mstatus_spie_shift (single mstatus_spp_shift) })
      spp) { pc = s.sepc }

-- `(s->mstatus >> MSTATUS_MPP_SHIFT) & 3`
unfoldable pub mpp_of : ℕ → ℕ
mpp_of mstatus = bit mstatus mstatus_mpp_shift + 2 * bit mstatus (mstatus_mpp_shift + 1)

unfoldable pub handle_mret : RiscvCpu → RiscvCpu
unfolding set_priv leave mpp_of
handle_mret s =
    let mpp = mpp_of s.mstatus in
    record (set_priv
      (record s { mstatus = leave s.mstatus mpp mstatus_mpie_shift (3 * single mstatus_mpp_shift) })
      mpp) { pc = s.mepc }

-- The interrupts that the level allows, all 32 at the user level.
unfoldable pub enabled_ints : RiscvCpu → ℕ
enabled_ints s =
    if s.priv == prv_m
    then if bit s.mstatus mstatus_mie_shift == 1 then word_not s.mideleg else 0
    else if s.priv == prv_s
    then if bit s.mstatus mstatus_sie_shift == 1
      then word_or (word_not s.mideleg) s.mideleg
      else word_not s.mideleg
    else 2 ^ 32 - 1

unfoldable pub get_pending_irq_mask : RiscvCpu → ℕ
unfolding enabled_ints
get_pending_irq_mask s =
    let pending_ints = word_and s.mip s.mie in
    if pending_ints == 0 then 0 else word_and pending_ints (enabled_ints s)

-- Whether an interrupt was raised: the result -1.
unfoldable pub raise_interrupt : RiscvCpu → Bool × RiscvCpu
raise_interrupt s =
    let mask = get_pending_irq_mask s in
    if mask == 0
    then (false, s)
    else (true, raise_exception2 s (word_or (ctz32 mask) cause_interrupt) 0)

unfoldable pub set_mip : RiscvCpu → ℕ → RiscvCpu
set_mip s mask =
    let mip = word_or s.mip mask in
    record s { mip = mip; power_down_flag = s.power_down_flag && (word_and mip s.mie == 0) }

unfoldable pub reset_mip : RiscvCpu → ℕ → RiscvCpu
unfolding clear
reset_mip s mask = record s { mip = clear s.mip mask }
