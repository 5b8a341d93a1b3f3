-- ===== src/Mmu/Keeps.antt =====
-- What reads and writes of words keep, the translation of an address keeps.
use esp32_tinyemu.Prelude.{
  ℕ, zero, suc, ◌+◌, ◌*◌, ◌/◌, ◌%◌, ◌^◌, ◌==◌, Option, size_add, bit, Always, present, Always-bind,
  Always-if, Always-weaken,
}
use esp32_tinyemu.Cpu.{RiscvCpu}
use esp32_tinyemu.Mmu.Ram.{PhysMemory}
use esp32_tinyemu.Mmu.{
  Access, leaf, leaf_allowed, leaf_changes, leaf_marked, walk, get_phys_addr, access_priv, pte_page,
  pte_xwr, pte_v,
}

module _ (ram : PhysMemory) (R : ram.Memory → ram.Memory → Type 0) (same : (m : ram.Memory) → R m m)
    (next : (m1 m2 m3 : ram.Memory) → R m1 m2 → R m2 m3 → R m1 m3)
    (reads : (m : ram.Memory) (a : ℕ)
      → Always (λ (r : ℕ × ram.Memory). R m r.1) (ram.phys_read_u32 m a))
    (writes : (m : ram.Memory) (a v : ℕ) → Always (R m) (ram.phys_write_u32 m a v)) where
  abbrev Kept : ram.Memory → Option (Option ℕ × ram.Memory) → Type 0
  Kept m result = Always (λ (r : Option ℕ × ram.Memory). R m r.1) result

  leaf-Kept :
      (s : RiscvCpu) (priv vaddr : ℕ) (access : Access) (m : ram.Memory) (a pte shift : ℕ)
      → Kept m (leaf ram s priv vaddr access m a pte shift)
  unfolding leaf
  leaf-Kept s priv vaddr access m a pte shift =
      Always-if (leaf_allowed s priv access pte)
        (Always-if (leaf_changes access pte)
          (Always-bind (writes m a (leaf_marked access pte)) (λ m' r. present r))
          (present (same m)))
        (present (same m))

  walk-Kept :
      (n : ℕ) (s : RiscvCpu) (priv vaddr : ℕ) (access : Access) (m : ram.Memory) (table : ℕ)
      → Kept m (walk ram n s priv vaddr access m table)
  unfolding walk
  walk-Kept zero s priv vaddr access m table = present (same m)
  walk-Kept (suc n) s priv vaddr access m table =
      let shift = 12 + 10 * n in
      let pte_addr = size_add table (vaddr / 2 ^ shift % 2 ^ 10 * 4) in
      Always-bind (reads m pte_addr) (λ r h. Always-if (bit r.0 pte_v == 0) (present h) (
        Always-if (pte_xwr r.0 == 0)
          (Always-weaken (walk-Kept n s priv vaddr access r.1 (pte_page r.0))
            (λ r' h'. next m r.1 r'.1 h h'))
          (Always-weaken (leaf-Kept s priv vaddr access r.1 pte_addr r.0 shift)
            (λ r' h'. next m r.1 r'.1 h h'))))

  pub get_phys_addr-Kept :
      (s : RiscvCpu) (m : ram.Memory) (vaddr : ℕ) (access : Access)
      → Kept m (get_phys_addr ram s m vaddr access)
  unfolding get_phys_addr
  get_phys_addr-Kept s m vaddr access = Always-if (access_priv s access == 3) (present (same m)) (
      Always-if (s.satp / 2 ^ 31 == 0) (present (same m))
        (walk-Kept 2 s (access_priv s access) vaddr access m _))
