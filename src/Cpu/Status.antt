-- ===== src/Cpu/Status.antt =====
-- The status register as software writes and reads it.
use esp32_tinyemu.Prelude.{
  ℕ, ◌*◌, ◌/◌, ◌%◌, ◌<◌, ◌≡◌, ◌==◌, ◌||◌, if◌then◌else◌, arith, bit, word_and, word_or, single,
  bit-and, bit-or, bit-field, bit-single, bit-shift, digit, Bool-cases, refl, ap, ◌∙◌, inl, inr,
}
use esp32_tinyemu.Cpu.{
  RiscvCpu, clear, get_mstatus, set_mstatus, mstatus_mask, mstatus_fs, mstatus_fs_shift, mstatus_xs,
}
use esp32_tinyemu.Cpu.Traps.{bit-clear}

-- `get_mstatus` below the SD bit.
pub get_bit :
    (s : RiscvCpu) (mask k : ℕ)
    → k < 31
    → bit (get_mstatus s mask) k
      ≡ bit (word_or s.mstatus (s.fs * single mstatus_fs_shift)) k * bit mask k
unfolding get_mstatus
get_bit s mask k lt =
    let val = word_and (word_or s.mstatus (s.fs * single mstatus_fs_shift)) mask in
    elim (Bool-cases
      ((word_and val mstatus_fs == mstatus_fs) || (word_and val mstatus_xs == mstatus_xs))) [
        | inl e ↦ rw e (
            ground (
              arith,
              bit-or val (single 31) k (omega arith),
              bit-single 31 k,
              bit-and (word_or s.mstatus (s.fs * single mstatus_fs_shift)) mask k (omega arith),
            ))
        | inr e ↦
            rw e (bit-and (word_or s.mstatus (s.fs * single mstatus_fs_shift)) mask k (omega arith))
      ]

-- FS is writable, but not in the member `mstatus`.
pub fs_writable : (bit mstatus_mask 13 ≡ 1) × (bit mstatus_mask 14 ≡ 1)
unfolding bit
fs_writable = (refl, refl)

set_bit :
    (s : RiscvCpu) (val k : ℕ)
    → k < 32
    → bit (set_mstatus s val).mstatus k ≡ (
        if k == 13
        then bit s.mstatus k
        else if k == 14
        then bit s.mstatus k
        else if bit mstatus_mask k == 1
        then bit val k
        else bit s.mstatus k)
unfolding set_mstatus
set_bit s val k lt =
    let mask = clear mstatus_mask mstatus_fs in
    ground (
      arith,
      bit-or (clear s.mstatus mask) (word_and val mask) k lt,
      bit-clear s.mstatus mask k lt,
      bit-and val mask k lt,
      bit-clear mstatus_mask mstatus_fs k lt,
      bit-field 3 13 k,
      digit mstatus_mask k,
      digit val k,
      digit s.mstatus k,
    )

fs_bits :
    (s : RiscvCpu) (val : ℕ)
    → ((set_mstatus s val).fs < 4)
      × ((set_mstatus s val).fs % 2 ≡ bit val 13)
      × ((set_mstatus s val).fs / 2 ≡ bit val 14)
unfolding set_mstatus
fs_bits s val = (omega arith, omega (arith, bit-shift val 13), omega (arith, bit-shift val 14))

-- What was written to `mstatus` reads back under a mask, below the SD bit (31): each bit that
-- software may write is the written one, and each other bit is as before. The field FS (13, 14)
-- lies in its own member, so that its bits of the member `mstatus` must be 0.
pub get-set_mstatus :
    (s : RiscvCpu) (val mask k : ℕ)
    → bit s.mstatus 13 ≡ 0
    → bit s.mstatus 14 ≡ 0
    → k < 31
    → bit (get_mstatus (set_mstatus s val) mask) k
      ≡ (if bit mstatus_mask k == 1 then bit val k else bit s.mstatus k) * bit mask k
get-set_mstatus s val mask k low high lt =
    let s' = set_mstatus s val in
    let (small, fs13, fs14) = fs_bits s val in
    get_bit s' mask k lt
    ∙ ap (λ t. t * bit mask k)
        (ground (
          arith,
          bit-or s'.mstatus (s'.fs * single mstatus_fs_shift) k,
          bit-field s'.fs 13 k small,
          set_bit s val k,
          fs_writable,
          fs13,
          fs14,
        ))
