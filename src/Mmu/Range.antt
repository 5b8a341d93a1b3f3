-- ===== src/Mmu/Range.antt =====
-- A physical address is a word.
use esp32_tinyemu.Prelude.{
  ℕ, zero, suc, ◌+◌, ◌*◌, ◌/◌, ◌%◌, ◌^◌, ◌<◌, ◌==◌, Option, none, some, arith, size_add, bit, or_lt,
  Always, present, Always-case, Always-if,
}
use esp32_tinyemu.Cpu.{RiscvCpu}
use esp32_tinyemu.Mmu.Ram.{PhysMemory}
use esp32_tinyemu.Mmu.{
  Access, leaf, leaf_allowed, leaf_changes, leaf_marked, leaf_address, walk, get_phys_addr,
  access_priv, pte_page, pte_xwr, pte_v,
}

abbrev pub IsWord : Option ℕ → Type 0
IsWord none = zero < suc zero
IsWord (some paddr) = paddr < 2 ^ 32

module _ (ram : PhysMemory) where
  abbrev pub Words : Option (Option ℕ × ram.Memory) → Type 0
  Words result = Always (λ (r : Option ℕ × ram.Memory). IsWord r.0) result

  address_lt : (vaddr page shift : ℕ) → leaf_address vaddr page shift < 2 ^ 32
  unfolding leaf_address
  address_lt vaddr page shift = or_lt _ _

  leaf-Words :
      (s : RiscvCpu) (priv vaddr : ℕ) (access : Access) (m : ram.Memory) (a pte shift : ℕ)
      → Words (leaf ram s priv vaddr access m a pte shift)
  unfolding leaf
  leaf-Words s priv vaddr access m a pte shift =
      let lt = address_lt vaddr (pte_page pte) shift in
      Always-if (leaf_allowed s priv access pte)
        (Always-if (leaf_changes access pte)
          (Always-case (ram.phys_write_u32 m a (leaf_marked access pte)) (λ m'. present lt))
          (present lt))
        (present (omega arith))

  walk-Words :
      (n : ℕ) (s : RiscvCpu) (priv vaddr : ℕ) (access : Access) (m : ram.Memory) (table : ℕ)
      → Words (walk ram n s priv vaddr access m table)
  unfolding walk
  walk-Words zero s priv vaddr access m table = present (omega arith)
  walk-Words (suc n) s priv vaddr access m table =
      let shift = 12 + 10 * n in
      let pte_addr = size_add table (vaddr / 2 ^ shift % 2 ^ 10 * 4) in
      Always-case (ram.phys_read_u32 m pte_addr) (λ r.
        Always-if (bit r.0 pte_v == 0) (present (omega arith)) (
          Always-if (pte_xwr r.0 == 0) (walk-Words n s priv vaddr access r.1 (pte_page r.0))
            (leaf-Words s priv vaddr access r.1 pte_addr r.0 shift)))

  pub get_phys_addr-IsWord :
      (s : RiscvCpu) (m : ram.Memory) (vaddr : ℕ) (access : Access)
      → vaddr < 2 ^ 32
      → Words (get_phys_addr ram s m vaddr access)
  unfolding get_phys_addr
  get_phys_addr-IsWord s m vaddr access lt = Always-if (access_priv s access == 3) (present lt) (
      Always-if (s.satp / 2 ^ 31 == 0) (present lt)
        (walk-Words 2 s (access_priv s access) vaddr access m _))
