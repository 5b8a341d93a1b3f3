-- ===== src/Cpu/Csr.antt =====
-- `csr_read` and `csr_write` of riscv_cpu.c: the control and status registers.
pub mod Laws
use esp32_tinyemu.Prelude.{
  ℕ, ◌+◌, ◌-◌, ◌*◌, ◌/◌, ◌%◌, ◌^◌, Bool, true, false, ◌&&◌, ◌==◌, if◌then◌else◌, leb, ltb, Option,
  none, some, bit, word_and, word_or, single,
}
use esp32_tinyemu.Cpu.{RiscvCpu, clear, get_mstatus, set_mstatus, prv_m, prv_s}

-- The cases of the two switches.
pub data Csr : Type 0 where
  fflags frm fcsr : Csr
  cycle instret cycleh instreth : Csr
  sstatus sie stvec scounteren sscratch sepc scause stval sip satp : Csr
  mstatus misa medeleg mideleg mie mtvec mcounteren mscratch mepc mcause mtval mip : Csr
  mcycle minstret mcycleh minstreth mhartid : Csr

unfoldable pub user_csr : ℕ → Option Csr
user_csr csr =
    if csr == 0x001
    then some fflags
    else if csr == 0x002
    then some frm
    else if csr == 0x003
    then some fcsr
    else if csr == 0xc00
    then some cycle
    else if csr == 0xc02
    then some instret
    else if csr == 0xc80
    then some cycleh
    else if csr == 0xc82
    then some instreth
    else none

unfoldable pub supervisor_csr : ℕ → Option Csr
supervisor_csr csr =
    if csr == 0x100
    then some sstatus
    else if csr == 0x104
    then some sie
    else if csr == 0x105
    then some stvec
    else if csr == 0x106
    then some scounteren
    else if csr == 0x140
    then some sscratch
    else if csr == 0x141
    then some sepc
    else if csr == 0x142
    then some scause
    else if csr == 0x143
    then some stval
    else if csr == 0x144
    then some sip
    else if csr == 0x180
    then some satp
    else none

unfoldable pub machine_csr : ℕ → Option Csr
machine_csr csr =
    if csr == 0x300
    then some mstatus
    else if csr == 0x301
    then some misa
    else if csr == 0x302
    then some medeleg
    else if csr == 0x303
    then some mideleg
    else if csr == 0x304
    then some mie
    else if csr == 0x305
    then some mtvec
    else if csr == 0x306
    then some mcounteren
    else if csr == 0x340
    then some mscratch
    else if csr == 0x341
    then some mepc
    else if csr == 0x342
    then some mcause
    else if csr == 0x343
    then some mtval
    else if csr == 0x344
    then some mip
    else if csr == 0xb00
    then some mcycle
    else if csr == 0xb02
    then some minstret
    else if csr == 0xb80
    then some mcycleh
    else if csr == 0xb82
    then some minstreth
    else if csr == 0xf14
    then some mhartid
    else none

-- The case of a register's number; `none` is the default case.
unfoldable pub decode_csr : ℕ → Option Csr
unfolding user_csr supervisor_csr machine_csr
decode_csr csr =
    if ltb csr 0x100
    then user_csr csr
    else if ltb csr 0x200
    then supervisor_csr csr
    else if ltb csr 0xc00
    then machine_csr csr
    else if csr == 0xf14
    then some mhartid
    else user_csr csr

abbrev pub sstatus_mask : ℕ
sstatus_mask = 1 + 2 + 2 ^ 4 + 2 ^ 5 + 2 ^ 8 + 3 * 2 ^ 13 + 3 * 2 ^ 15 + 2 ^ 18 + 2 ^ 19

abbrev pub counteren_mask : ℕ
counteren_mask = 1 + 2 ^ 2

-- `~0`, as the mask of `get_mstatus`
abbrev pub all_bits : ℕ
all_bits = 2 ^ 32 - 1

-- Whether a counter, the bit `n`, may be read at the current level.
unfoldable pub counter_enabled : RiscvCpu → ℕ → Bool
counter_enabled s n =
    if ltb s.priv prv_m
    then bit (if ltb s.priv prv_s then s.scounteren else s.mcounteren) n == 1
    else true

abbrev low_counter : RiscvCpu → ℕ
low_counter s = s.insn_counter % 2 ^ 32

abbrev high_counter : RiscvCpu → ℕ
high_counter s = s.insn_counter / 2 ^ 32 % 2 ^ 32

-- The switch of `csr_read`.
unfoldable pub csr_value : RiscvCpu → Csr → Option ℕ
csr_value s fflags = if s.fs == 0 then none else some s.fflags
csr_value s frm = if s.fs == 0 then none else some s.frm
csr_value s fcsr = if s.fs == 0 then none else some (word_or s.fflags (s.frm * 2 ^ 5))
csr_value s cycle = if counter_enabled s 0 then some (low_counter s) else none
csr_value s instret = if counter_enabled s 2 then some (low_counter s) else none
csr_value s cycleh = if counter_enabled s 0 then some (high_counter s) else none
csr_value s instreth = if counter_enabled s 2 then some (high_counter s) else none
csr_value s sstatus = some (get_mstatus s sstatus_mask)
csr_value s sie = some (word_and s.mie s.mideleg)
csr_value s stvec = some s.stvec
csr_value s scounteren = some s.scounteren
csr_value s sscratch = some s.sscratch
csr_value s sepc = some s.sepc
csr_value s scause = some s.scause
csr_value s stval = some s.stval
csr_value s sip = some (word_and s.mip s.mideleg)
csr_value s satp = some s.satp
csr_value s mstatus = some (get_mstatus s all_bits)
csr_value s misa = some (word_or s.misa (s.mxl * 2 ^ 30))
csr_value s medeleg = some s.medeleg
csr_value s mideleg = some s.mideleg
csr_value s mie = some s.mie
csr_value s mtvec = some s.mtvec
csr_value s mcounteren = some s.mcounteren
csr_value s mscratch = some s.mscratch
csr_value s mepc = some s.mepc
csr_value s mcause = some s.mcause
csr_value s mtval = some s.mtval
csr_value s mip = some s.mip
csr_value s mcycle = some (low_counter s)
csr_value s minstret = some (low_counter s)
csr_value s mcycleh = some (high_counter s)
csr_value s minstreth = some (high_counter s)
csr_value s mhartid = some s.mhartid

-- `none` is the result -1; otherwise it is 0, and the value is that of `*pval`.
unfoldable pub csr_read : RiscvCpu → ℕ → Bool → Option ℕ
unfolding csr_value
csr_read s csr will_write =
    if (csr / 2 ^ 10 % 4 == 3) && will_write
    then none
    else if ltb s.priv (csr / 2 ^ 8 % 4)
    then none
    else elim (decode_csr csr) [ none ↦ none | some c ↦ csr_value s c ]

unfoldable pub set_frm : RiscvCpu → ℕ → RiscvCpu
set_frm s val = record s { frm = if leb 5 val then 0 else val }

-- `(old & ~mask) | (val & mask)`
unfoldable pub masked : ℕ → ℕ → ℕ → ℕ
masked old val mask = word_or (clear old mask) (word_and val mask)

-- The switch of `csr_write`: `none` is the result -1, and otherwise the result is in front.
unfoldable pub csr_store : RiscvCpu → Csr → ℕ → Option (ℕ × RiscvCpu)
unfolding masked
csr_store s fflags val = some (0, record s { fflags = val % 2 ^ 5; fs = 3 })
csr_store s frm val = some (0, record (set_frm s (val % 2 ^ 3)) { fs = 3 })
csr_store s fcsr val =
    some (0, record (set_frm s (val / 2 ^ 5 % 2 ^ 3)) { fflags = val % 2 ^ 5; fs = 3 })
csr_store s sstatus val = some (0, set_mstatus s (masked s.mstatus val sstatus_mask))
csr_store s sie val = some (0, record s { mie = masked s.mie val s.mideleg })
csr_store s stvec val = some (0, record s { stvec = clear val 3 })
csr_store s scounteren val = some (0, record s { scounteren = word_and val counteren_mask })
csr_store s sscratch val = some (0, record s { sscratch = val })
csr_store s sepc val = some (0, record s { sepc = clear val 1 })
csr_store s scause val = some (0, record s { scause = val })
csr_store s stval val = some (0, record s { stval = val })
csr_store s sip val = some (0, record s { mip = masked s.mip val s.mideleg })
csr_store s satp val =
    some (2, record s { satp = word_or (word_and val (2 ^ 22 - 1)) (bit val 31 * single 31) })
csr_store s mstatus val = some (0, set_mstatus s val)
csr_store s misa val = some (0, s)
csr_store s medeleg val = some (0, record s { medeleg = masked s.medeleg val (2 ^ 16 - 1) })
csr_store s mideleg val = some (0, record s { mideleg = masked s.mideleg val (2 + 2 ^ 5 + 2 ^ 9) })
csr_store s mie val =
    some (0, record s { mie = masked s.mie val (2 ^ 3 + 2 ^ 7 + 2 + 2 ^ 5 + 2 ^ 9) })
csr_store s mtvec val = some (0, record s { mtvec = clear val 3 })
csr_store s mcounteren val = some (0, record s { mcounteren = word_and val counteren_mask })
csr_store s mscratch val = some (0, record s { mscratch = val })
csr_store s mepc val = some (0, record s { mepc = clear val 1 })
csr_store s mcause val = some (0, record s { mcause = val })
csr_store s mtval val = some (0, record s { mtval = val })
csr_store s mip val = some (0, record s { mip = masked s.mip val (2 + 2 ^ 5) })
csr_store s cycle val = none
csr_store s instret val = none
csr_store s cycleh val = none
csr_store s instreth val = none
csr_store s mcycle val = none
csr_store s minstret val = none
csr_store s mcycleh val = none
csr_store s minstreth val = none
csr_store s mhartid val = none

unfoldable pub csr_write : RiscvCpu → ℕ → ℕ → Option (ℕ × RiscvCpu)
unfolding csr_store
csr_write s csr val = elim (decode_csr csr) [ none ↦ none | some c ↦ csr_store s c val ]
