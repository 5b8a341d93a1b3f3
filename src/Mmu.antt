-- ===== src/Mmu.antt =====
-- `get_phys_addr` of lib/tinyemu/riscv_cpu.c, built with MAX_XLEN 32: the translation of addresses
-- by the page tables of the Sv32 mode.
pub mod Ram
pub mod Spec
pub mod Bits
pub mod Laws
pub mod Keeps
pub mod Range
use esp32_tinyemu.Prelude.{
  ℕ, zero, suc, ◌+◌, ◌-◌, ◌*◌, ◌/◌, ◌%◌, ◌^◌, Bool, true, false, ◌&&◌, ◌||◌, not, ◌==◌,
  if◌then◌else◌, Option, none, some, bit, word_and, word_or, word_not, single, size_add,
}
use esp32_tinyemu.Cpu.{RiscvCpu, mpp_of, prv_m, prv_s}
use esp32_tinyemu.Mmu.Ram.{PhysMemory}

-- ACCESS_READ, ACCESS_WRITE and ACCESS_CODE
pub data Access : Type 0 where
  read write code : Access

-- The number of a constant ACCESS_*.
abbrev pub access_number : Access → ℕ
access_number read = 0
access_number write = 1
access_number code = 2

abbrev pub mstatus_mprv_shift : ℕ
mstatus_mprv_shift = 17

abbrev pub mstatus_sum_shift : ℕ
mstatus_sum_shift = 18

abbrev pub mstatus_mxr_shift : ℕ
mstatus_mxr_shift = 19

-- The bit numbers of PTE_V_MASK, PTE_U_MASK, PTE_A_MASK and PTE_D_MASK.
abbrev pub pte_v : ℕ
pte_v = 0

abbrev pub pte_u : ℕ
pte_u = 4

abbrev pub pte_a : ℕ
pte_a = 6

abbrev pub pte_d : ℕ
pte_d = 7

-- The level at which an access is checked.
unfoldable pub access_priv : RiscvCpu → Access → ℕ
access_priv s code = s.priv
access_priv s read = if bit s.mstatus mstatus_mprv_shift == 1 then mpp_of s.mstatus else s.priv
access_priv s write = if bit s.mstatus mstatus_mprv_shift == 1 then mpp_of s.mstatus else s.priv

-- `(pte >> 10) << PG_SHIFT`
unfoldable pub pte_page : ℕ → ℕ
pte_page pte = pte / 2 ^ 10 * 2 ^ 12 % 2 ^ 32

-- `(pte >> 1) & 7`
unfoldable pub pte_xwr : ℕ → ℕ
pte_xwr pte = pte / 2 % 8

-- The checks of an entry with permissions: false where the code returns -1.
unfoldable pub leaf_allowed : RiscvCpu → ℕ → Access → ℕ → Bool
leaf_allowed s priv access pte =
    let xwr = pte_xwr pte in
    let readable = if bit s.mstatus mstatus_mxr_shift == 1 then word_or xwr (xwr / 4) else xwr in
    if (xwr == 2) || (xwr == 6)
    then false
    else if if priv == prv_s
        then (bit pte pte_u == 1) && (bit s.mstatus mstatus_sum_shift == 0)
        else bit pte pte_u == 0
    then false
    else bit readable (access_number access) == 1

-- `need_write`
unfoldable pub leaf_changes : Access → ℕ → Bool
leaf_changes access pte =
    (bit pte pte_a == 0) || ((bit pte pte_d == 0) && (access_number access == 1))

-- The entry with PTE_A, and for a write PTE_D.
unfoldable pub leaf_marked : Access → ℕ → ℕ
leaf_marked access pte =
    let accessed = word_or pte (single pte_a) in
    if access_number access == 1 then word_or accessed (single pte_d) else accessed

-- `(vaddr & vaddr_mask) | (paddr & ~vaddr_mask)`
unfoldable pub leaf_address : ℕ → ℕ → ℕ → ℕ
leaf_address vaddr page shift =
    let mask = 2 ^ shift - 1 in word_or (word_and vaddr mask) (word_and page (word_not mask))

module _ (ram : PhysMemory) where
  open ram use {Memory, phys_read_u32, phys_write_u32}

  -- The end of a round of the loop, for an entry with permissions: the address, or `none` for -1.
  unfoldable pub leaf : RiscvCpu → ℕ → ℕ → Access → Memory → ℕ → ℕ → ℕ → Option (Option ℕ × Memory)
  leaf s priv vaddr access m pte_addr pte shift =
      let paddr = leaf_address vaddr (pte_page pte) shift in
      if leaf_allowed s priv access pte
      then if leaf_changes access pte
        then elim (phys_write_u32 m pte_addr (leaf_marked access pte)) [
          | none ↦ none
          | some m' ↦ some (some paddr, m')
        ]
        else some (some paddr, m)
      else some (none, m)

  -- The loop, on the number of levels that are left; `none` only where a memory operation has none.
  unfoldable pub walk : ℕ → RiscvCpu → ℕ → ℕ → Access → Memory → ℕ → Option (Option ℕ × Memory)
  walk zero s priv vaddr access m table = some (none, m)
  walk (suc n) s priv vaddr access m table =
      let shift = 12 + 10 * n in
      let pte_addr = size_add table (vaddr / 2 ^ shift % 2 ^ 10 * 4) in
      elim (phys_read_u32 m pte_addr) [
        | none ↦ none
        | some (pte, m') ↦
            let rest = walk n s priv vaddr access m' (pte_page pte) in
            if bit pte pte_v == 0
            then some (none, m')
            else if pte_xwr pte == 0
            then rest
            else leaf s priv vaddr access m' pte_addr pte shift
      ]

  unfoldable pub get_phys_addr : RiscvCpu → Memory → ℕ → Access → Option (Option ℕ × Memory)
  get_phys_addr s m vaddr access =
      let priv = access_priv s access in
      if priv == prv_m
      then some (some vaddr, m)
      else if s.satp / 2 ^ 31 == 0
      then some (some vaddr, m)
      else walk 2 s priv vaddr access m (s.satp % 2 ^ 22 * 2 ^ 12 % 2 ^ 32)
