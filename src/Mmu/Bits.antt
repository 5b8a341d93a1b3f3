-- ===== src/Mmu/Bits.antt =====
-- The bits of a page table entry: the code's masks are the rule of the architecture.
use esp32_tinyemu.Prelude.{
  ℕ, ◌+◌, ◌-◌, ◌*◌, ◌/◌, ◌%◌, ◌^◌, ◌≤◌, ◌<◌, ◌≡◌, false, not, ◌==◌, arith, bit, word_and, word_or,
  word_not, single, bit-and, bit-or, bit-not, bit-single, bit-shift, digit, bit_lt, positive,
  same_bits, bit-join, bit-mod, bit-div, bit-mask, or_lt,
}
use native.Mathlib.Nat.{mod-lt}
use esp32_tinyemu.Cpu.{RiscvCpu}
use esp32_tinyemu.Mmu.{
  Access, read, write, code, leaf_allowed, leaf_changes, leaf_marked, leaf_address, pte_page,
  pte_xwr,
}
use esp32_tinyemu.Mmu.Spec.{is_leaf, frame, may_access, marked_bit}

xwr_bits : (pte : ℕ) → pte_xwr pte ≡ bit pte 1 + 2 * bit pte 2 + 4 * bit pte 3
unfolding pte_xwr
xwr_bits pte = omega (arith, bit-shift pte 1, bit-shift pte 2, bit-shift pte 3)

pub xwr-leaf : (pte : ℕ) → is_leaf pte ≡ not (pte_xwr pte == 0)
xwr-leaf pte = ground (arith, xwr_bits pte, digit pte 1, digit pte 2, digit pte 3)

pub page-frame : (pte : ℕ) → pte_page pte ≡ frame pte
unfolding pte_page
page-frame pte = omega arith

-- The bits of the permissions, also with those of executable pages made readable.
permission_bits :
    (pte : ℕ)
    → let xwr = pte_xwr pte in
      ((bit xwr 0 ≡ bit pte 1) × (bit xwr 1 ≡ bit pte 2) × (bit xwr 2 ≡ bit pte 3))
      × ((bit (xwr / 4) 0 ≡ bit pte 3) × (bit (xwr / 4) 1 ≡ 0) × (bit (xwr / 4) 2 ≡ 0))
permission_bits pte =
    let xwr = pte_xwr pte in
    let r = bit_lt pte 1 in
    let w = bit_lt pte 2 in
    let x = bit_lt pte 3 in
    (
      (
        omega (arith, bit-shift xwr 0, xwr_bits pte),
        omega (arith, bit-shift xwr 1, xwr_bits pte),
        omega (arith, bit-shift xwr 2, xwr_bits pte),
      ),
      (
        omega (arith, bit-shift (xwr / 4) 0, xwr_bits pte),
        omega (arith, bit-shift (xwr / 4) 1, xwr_bits pte),
        omega (arith, bit-shift (xwr / 4) 2, xwr_bits pte),
      ),
    )

pub allowed_lem :
    (s : RiscvCpu) (priv : ℕ) (access : Access) (pte : ℕ)
    → leaf_allowed s priv access pte ≡ may_access s priv access pte
unfolding leaf_allowed
allowed_lem s priv read pte = ground (
  arith,
  xwr_bits pte,
  permission_bits pte,
  bit-or (pte_xwr pte) (pte_xwr pte / 4) 0 (omega arith),
  digit pte 1,
  digit pte 2,
  digit pte 3,
  digit pte 4,
  digit s.mstatus 18,
)
allowed_lem s priv write pte = ground (
  arith,
  xwr_bits pte,
  permission_bits pte,
  bit-or (pte_xwr pte) (pte_xwr pte / 4) 1 (omega arith),
  digit pte 1,
  digit pte 2,
  digit pte 3,
  digit pte 4,
  digit s.mstatus 18,
)
allowed_lem s priv code pte = ground (
  arith,
  xwr_bits pte,
  permission_bits pte,
  bit-or (pte_xwr pte) (pte_xwr pte / 4) 2 (omega arith),
  digit pte 1,
  digit pte 2,
  digit pte 3,
  digit pte 4,
  digit s.mstatus 18,
)

-- The entry that is written back, where the code writes it.
pub marked_lem :
    (access : Access) (pte k : ℕ)
    → k < 32
    → bit (leaf_marked access pte) k ≡ marked_bit access pte k
unfolding leaf_marked
marked_lem read pte k lt = ground (arith, bit-or pte (single 6) k lt, bit-single 6 k, digit pte k)
marked_lem code pte k lt = ground (arith, bit-or pte (single 6) k lt, bit-single 6 k, digit pte k)
marked_lem write pte k lt = ground (
  arith,
  bit-or (word_or pte (single 6)) (single 7) k lt,
  bit-or pte (single 6) k lt,
  bit-single 6 k,
  bit-single 7 k,
  digit pte k,
)

-- Where it does not, the entry has the bits already.
pub unchanged_lem :
    (access : Access) (pte k : ℕ)
    → leaf_changes access pte ≡ false
    → marked_bit access pte k ≡ bit pte k
unfolding leaf_changes
unchanged_lem read pte k e = ground (arith, e, digit pte 6)
unchanged_lem code pte k e = ground (arith, e, digit pte 6)
unchanged_lem write pte k e = ground (arith, e, digit pte 6, digit pte 7)

pub address_lem :
    (vaddr page s : ℕ)
    → s ≤ 32
    → vaddr < 2 ^ 32
    → page / 2 ^ s * 2 ^ s + vaddr % 2 ^ s < 2 ^ 32
    → leaf_address vaddr page s ≡ page / 2 ^ s * 2 ^ s + vaddr % 2 ^ s
unfolding leaf_address
address_lem vaddr page s le lv lp =
    same_bits 32 _ _ (or_lt (word_and vaddr (2 ^ s - 1)) (word_and page (word_not (2 ^ s - 1)))) lp
      (λ k lt. ground (
        arith,
        bit-or (word_and vaddr (2 ^ s - 1)) (word_and page (word_not (2 ^ s - 1))) k lt,
        bit-and vaddr (2 ^ s - 1) k lt,
        bit-and page (word_not (2 ^ s - 1)) k lt,
        bit-not (2 ^ s - 1) k lt,
        bit-mask s k,
        bit-join s (page / 2 ^ s) (vaddr % 2 ^ s) k (mod-lt vaddr (positive s)),
        bit-mod s vaddr k,
        bit-div s page k,
        digit vaddr k,
        digit page k,
      ))
