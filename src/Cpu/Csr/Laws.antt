-- ===== src/Cpu/Csr/Laws.antt =====
-- What a write of a control register does to each of its bits.
use esp32_tinyemu.Prelude.{
  ℕ, ◌+◌, ◌-◌, ◌*◌, ◌/◌, ◌%◌, ◌^◌, ◌≤◌, ◌<◌, ◌≡◌, Bool, true, false, inl, inr, Bool-cases, bit-join,
  bit_high, ◌==◌, if◌then◌else◌, ltb, some, arith, refl, bit, word_and, word_or, word_not, single,
  bit-and, bit-or, bit-not, bit-field, bit_lt, bit_zero, ones, digit,
}
use esp32_tinyemu.Cpu.{RiscvCpu, clear, get_mstatus, set_mstatus, mstatus_mask}
use esp32_tinyemu.Cpu.Traps.{bit-clear}
use esp32_tinyemu.Cpu.Status.{get-set_mstatus, get_bit, fs_writable}
use esp32_tinyemu.Cpu.Csr.{
  Csr, decode_csr, csr_value, csr_store, csr_read, csr_write, masked, sstatus_mask, counteren_mask,
  all_bits, fflags, frm, fcsr, cycle, instret, cycleh, instreth, sstatus, sie, stvec, scounteren,
  sscratch, sepc, scause, stval, sip, satp, mstatus, misa, medeleg, mideleg, mie, mtvec, mcounteren,
  mscratch, mepc, mcause, mtval, mip, mcycle, minstret, mcycleh, minstreth, mhartid,
}

-- The registers that are written bit by bit.
abbrev pub is_bitwise : Csr → Bool
is_bitwise fflags = false
is_bitwise frm = false
is_bitwise fcsr = false
is_bitwise cycle = false
is_bitwise instret = false
is_bitwise cycleh = false
is_bitwise instreth = false
is_bitwise mcycle = false
is_bitwise minstret = false
is_bitwise mcycleh = false
is_bitwise minstreth = false
is_bitwise mhartid = false
is_bitwise other = true

-- The mode (bit 31) and the page number of `satp`.
abbrev pub satp_mask : ℕ
satp_mask = 2 ^ 31 + (2 ^ 22 - 1)

-- The bit SD (31) of the status registers, which a read derives from the other fields.
abbrev pub is_derived : Csr → ℕ → Bool
is_derived sstatus k = k == 31
is_derived mstatus k = k == 31
is_derived other k = false

-- The bits that a write takes from its operand.
abbrev pub written_mask : RiscvCpu → Csr → ℕ
written_mask s sstatus = word_and sstatus_mask mstatus_mask
written_mask s sie = s.mideleg
written_mask s stvec = word_not 3
written_mask s scounteren = counteren_mask
written_mask s sepc = word_not 1
written_mask s sip = s.mideleg
written_mask s satp = satp_mask
written_mask s mstatus = mstatus_mask
written_mask s medeleg = 2 ^ 16 - 1
written_mask s mideleg = 2 + 2 ^ 5 + 2 ^ 9
written_mask s mie = 2 ^ 3 + 2 ^ 7 + 2 + 2 ^ 5 + 2 ^ 9
written_mask s mtvec = word_not 3
written_mask s mcounteren = counteren_mask
written_mask s mepc = word_not 1
written_mask s mip = 2 + 2 ^ 5
written_mask s misa = 0
written_mask s other = all_bits

-- The bits that a write keeps, where it does not take them from its operand; the others become 0.
abbrev pub kept_mask : RiscvCpu → Csr → ℕ
kept_mask s sstatus = all_bits
kept_mask s mstatus = all_bits
kept_mask s misa = all_bits
kept_mask s medeleg = all_bits
kept_mask s mideleg = all_bits
kept_mask s mie = all_bits
kept_mask s mip = all_bits
kept_mask s other = 0

-- Bit `k` of a register after a write.
abbrev pub written_bit : ℕ → ℕ → ℕ → ℕ → ℕ → ℕ
written_bit kept written old val k =
    if bit written k == 1 then bit val k else if bit kept k == 1 then bit old k else 0

put_masked :
    (old val mask k : ℕ)
    → k < 32
    → bit (masked old val mask) k ≡ written_bit all_bits mask old val k
unfolding masked
put_masked old val mask k lt = ground (
  arith,
  bit-or (clear old mask) (word_and val mask) k,
  bit-clear old mask k,
  bit-and val mask k,
  digit mask k,
  digit val k,
  digit old k,
  ones 32 k,
)

put_all : (old val k : ℕ) → k < 32 → bit val k ≡ written_bit 0 all_bits old val k
put_all old val k lt = ground (arith, ones 32 k)

put_clear :
    (old val mask k : ℕ) → k < 32 → bit (clear val mask) k ≡ written_bit 0 (word_not mask) old val k
put_clear old val mask k lt =
    ground (arith, bit-clear val mask k, bit-not mask k, bit_zero k, digit mask k)

put_and : (old val mask k : ℕ) → k < 32 → bit (word_and val mask) k ≡ written_bit 0 mask old val k
put_and old val mask k lt = ground (arith, bit-and val mask k, bit_zero k, digit mask k)

-- A register that shows only the bits under a mask.
put_view :
    (old val mask k : ℕ)
    → k < 32
    → bit (word_and (masked old val mask) mask) k ≡ written_bit 0 mask (word_and old mask) val k
put_view old val mask k lt = ground (
  arith,
  bit-and (masked old val mask) mask k,
  put_masked old val mask k lt,
  bit_zero k,
  digit mask k,
)

satp_bits : (k : ℕ) → bit satp_mask k ≡ (if ltb k 31 then bit (2 ^ 22 - 1) k else bit 1 (k - 31))
satp_bits k = bit-join 31 1 (2 ^ 22 - 1) k (omega arith)

one_bit : bit 1 0 ≡ 1
unfolding bit
one_bit = refl

page_mask_high : bit (2 ^ 22 - 1) 31 ≡ 0
page_mask_high = bit_high 22 (2 ^ 22 - 1) 31 (omega arith) (omega arith)

put_satp :
    (old val k : ℕ)
    → k < 32
    → bit (word_or (word_and val (2 ^ 22 - 1)) (bit val 31 * single 31)) k
      ≡ written_bit 0 satp_mask old val k
put_satp old val k lt = elim (Bool-cases (ltb k 31)) [
  | inr top ↦
      let at : k ≡ 31 = ground (arith, top) in
      rw at (
        ground (
          arith,
          bit-or (word_and val (2 ^ 22 - 1)) (bit val 31 * single 31) 31,
          bit-field (bit val 31) 31 31,
          bit_lt val 31,
          bit-and val (2 ^ 22 - 1) 31,
          satp_bits 31,
          one_bit,
          page_mask_high,
          digit val 31,
        ))
  | inl under ↦ ground (
    arith,
    under,
    bit-or (word_and val (2 ^ 22 - 1)) (bit val 31 * single 31) k,
    bit-field (bit val 31) 31 k,
    bit_lt val 31,
    put_and old val (2 ^ 22 - 1) k lt,
    satp_bits k,
    bit_zero k,
    digit val k,
  )
]

-- The field FS has two bits and lies in its own member.
pub record IsStatus (s : RiscvCpu) : Type 0 where
  pub fs_small : s.fs < 4
  pub fs_low : bit s.mstatus 13 ≡ 0
  pub fs_high : bit s.mstatus 14 ≡ 0

set_mstatus_priv : (s : RiscvCpu) (val : ℕ) → (set_mstatus s val).priv ≡ s.priv
unfolding set_mstatus
set_mstatus_priv s val = refl

-- The bits of `mstatus` that a read shows.
shown_bit :
    (s : RiscvCpu) (mask k : ℕ)
    → IsStatus s
    → k < 31
    → bit mstatus_mask k ≡ 0
    → bit (get_mstatus s mask) k ≡ bit s.mstatus k * bit mask k
shown_bit s mask k h lt e = ground (
  arith,
  get_bit s mask k lt,
  bit-or s.mstatus (s.fs * single 13) k,
  bit-field s.fs 13 k h.fs_small,
  fs_writable,
)

put_mstatus :
    (s : RiscvCpu) (val k : ℕ)
    → IsStatus s
    → k < 31
    → bit (get_mstatus (set_mstatus s val) all_bits) k
      ≡ written_bit all_bits mstatus_mask (get_mstatus s all_bits) val k
put_mstatus s val k h lt = ground (
  arith,
  get-set_mstatus s val all_bits k h.fs_low h.fs_high lt,
  shown_bit s all_bits k h lt,
  digit mstatus_mask k,
  ones 32 k,
)

put_sstatus :
    (s : RiscvCpu) (val k : ℕ)
    → IsStatus s
    → k < 31
    → bit (get_mstatus (set_mstatus s (masked s.mstatus val sstatus_mask)) sstatus_mask) k
      ≡ written_bit all_bits (word_and sstatus_mask mstatus_mask) (get_mstatus s sstatus_mask) val k
put_sstatus s val k h lt = ground (
  arith,
  get-set_mstatus s (masked s.mstatus val sstatus_mask) sstatus_mask k h.fs_low h.fs_high lt,
  put_masked s.mstatus val sstatus_mask k (omega arith),
  bit-and sstatus_mask mstatus_mask k,
  shown_bit s sstatus_mask k h lt,
  get_bit s sstatus_mask k lt,
  digit mstatus_mask k,
  digit sstatus_mask k,
  ones 32 k,
)

put_none : (old val k : ℕ) → k < 32 → bit old k ≡ written_bit all_bits 0 old val k
put_none old val k lt = ground (arith, ones 32 k, bit_zero k)

-- What a write leaves: the old and the new value of the register.
pub record Written (s : RiscvCpu) (c : Csr) (val k kept written : ℕ) : Type 0 where
  pub code : ℕ
  pub cpu : RiscvCpu
  pub old : ℕ
  pub new : ℕ
  pub stored : csr_store s c val ≡ some (code, cpu)
  pub before : csr_value s c ≡ some old
  pub after : csr_value cpu c ≡ some new
  pub same_priv : cpu.priv ≡ s.priv
  pub bits : bit new k ≡ written_bit kept written old val k

wrote :
    {s : RiscvCpu} {c : Csr} {val k kept written code : ℕ} {cpu : RiscvCpu} {old new : ℕ}
    → csr_store s c val ≡ some (code, cpu)
    → csr_value s c ≡ some old
    → csr_value cpu c ≡ some new
    → cpu.priv ≡ s.priv
    → bit new k ≡ written_bit kept written old val k
    → Written s c val k kept written
wrote {code = code} {cpu} {old} {new} stored before after same bits = record {
  code = code;
  cpu = cpu;
  old = old;
  new = new;
  stored = stored;
  before = before;
  after = after;
  same_priv = same;
  bits = bits;
}

store_lem :
    (s : RiscvCpu) (c : Csr) (val k : ℕ)
    → is_bitwise c ≡ true
    → IsStatus s
    → k < 32
    → is_derived c k ≡ false
    → Written s c val k (kept_mask s c) (written_mask s c)
unfolding csr_store csr_value
store_lem s fflags val k e h lt d = absurd (ground (arith, e))
store_lem s frm val k e h lt d = absurd (ground (arith, e))
store_lem s fcsr val k e h lt d = absurd (ground (arith, e))
store_lem s cycle val k e h lt d = absurd (ground (arith, e))
store_lem s instret val k e h lt d = absurd (ground (arith, e))
store_lem s cycleh val k e h lt d = absurd (ground (arith, e))
store_lem s instreth val k e h lt d = absurd (ground (arith, e))
store_lem s mcycle val k e h lt d = absurd (ground (arith, e))
store_lem s minstret val k e h lt d = absurd (ground (arith, e))
store_lem s mcycleh val k e h lt d = absurd (ground (arith, e))
store_lem s minstreth val k e h lt d = absurd (ground (arith, e))
store_lem s mhartid val k e h lt d = absurd (ground (arith, e))
store_lem s sstatus val k e h lt d =
    wrote {cpu = set_mstatus s (masked s.mstatus val sstatus_mask)} refl refl refl
      (set_mstatus_priv s (masked s.mstatus val sstatus_mask))
      (put_sstatus s val k h (ground (arith, d)))
store_lem s sie val k e h lt d = wrote refl refl refl refl (put_view s.mie val s.mideleg k lt)
store_lem s stvec val k e h lt d = wrote refl refl refl refl (put_clear s.stvec val 3 k lt)
store_lem s scounteren val k e h lt d =
    wrote refl refl refl refl (put_and s.scounteren val counteren_mask k lt)
store_lem s sscratch val k e h lt d = wrote refl refl refl refl (put_all s.sscratch val k lt)
store_lem s sepc val k e h lt d = wrote refl refl refl refl (put_clear s.sepc val 1 k lt)
store_lem s scause val k e h lt d = wrote refl refl refl refl (put_all s.scause val k lt)
store_lem s stval val k e h lt d = wrote refl refl refl refl (put_all s.stval val k lt)
store_lem s sip val k e h lt d = wrote refl refl refl refl (put_view s.mip val s.mideleg k lt)
store_lem s satp val k e h lt d = wrote refl refl refl refl (put_satp s.satp val k lt)
store_lem s mstatus val k e h lt d =
    wrote {cpu = set_mstatus s val} refl refl refl (set_mstatus_priv s val)
      (put_mstatus s val k h (ground (arith, d)))
store_lem s misa val k e h lt d =
    wrote refl refl refl refl (put_none (word_or s.misa (s.mxl * 2 ^ 30)) val k lt)
store_lem s medeleg val k e h lt d =
    wrote refl refl refl refl (put_masked s.medeleg val (2 ^ 16 - 1) k lt)
store_lem s mideleg val k e h lt d =
    wrote refl refl refl refl (put_masked s.mideleg val (2 + 2 ^ 5 + 2 ^ 9) k lt)
store_lem s mie val k e h lt d =
    wrote refl refl refl refl (put_masked s.mie val (2 ^ 3 + 2 ^ 7 + 2 + 2 ^ 5 + 2 ^ 9) k lt)
store_lem s mtvec val k e h lt d = wrote refl refl refl refl (put_clear s.mtvec val 3 k lt)
store_lem s mcounteren val k e h lt d =
    wrote refl refl refl refl (put_and s.mcounteren val counteren_mask k lt)
store_lem s mscratch val k e h lt d = wrote refl refl refl refl (put_all s.mscratch val k lt)
store_lem s mepc val k e h lt d = wrote refl refl refl refl (put_clear s.mepc val 1 k lt)
store_lem s mcause val k e h lt d = wrote refl refl refl refl (put_all s.mcause val k lt)
store_lem s mtval val k e h lt d = wrote refl refl refl refl (put_all s.mtval val k lt)
store_lem s mip val k e h lt d = wrote refl refl refl refl (put_masked s.mip val (2 + 2 ^ 5) k lt)

-- A write of a bitwise register, whose level the core has, leaves in each of the 32 bits what its
-- masks say: the operand's bit, the old one or 0. This is what the instruction reads before the
-- write and what the next one reads after it. Only the bit SD (31) of mstatus and sstatus is left
-- out, which no write stores.
pub csr_write_lem :
    (s : RiscvCpu) (n : ℕ) (c : Csr) (val k : ℕ)
    → decode_csr n ≡ some c
    → is_bitwise c ≡ true
    → IsStatus s
    → k < 32
    → is_derived c k ≡ false
    → n / 2 ^ 8 % 4 ≤ s.priv
    → (w : Written s c val k (kept_mask s c) (written_mask s c)) × (csr_write s n val
        ≡ some (w.code, w.cpu))
      × (csr_read s n false ≡ some w.old)
      × (csr_read w.cpu n false ≡ some w.new)
unfolding csr_write csr_read
csr_write_lem s n c val k d e h lt plain level =
    let w = store_lem s c val k e h lt plain in
    (
      w,
      rw (csr_write, d) w.stored,
      rw (csr_read, d) (ground (arith, w.before)),
      rw (csr_read, d) (ground (arith, w.after, w.same_priv)),
    )
