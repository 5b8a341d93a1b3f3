-- ===== src/Iomem/Access.antt =====
-- `phys_read_u32` and its like of lib/tinyemu/riscv_cpu.c: integers in the RAM of the machine.
use esp32_tinyemu.Prelude.{
  ℕ, zero, suc, ◌+◌, ◌*◌, ◌/◌, ◌%◌, ◌^◌, if◌then◌else◌, Option, none, some, size_sub, Bytes,
}
use esp32_tinyemu.LruCache.NodeList.{Libraries}
use esp32_tinyemu.Vmm.{vmm_read, vmm_write}
use esp32_tinyemu.Iomem.{PhysMemoryMap, get_phys_mem_range, put_range}

-- An integer of `n` bytes in memory, the least significant one first.
unfoldable pub load_bytes : ℕ → Bytes → ℕ
load_bytes zero b = 0
load_bytes (suc n) b = b 0 + 2 ^ 8 * load_bytes n (λ i. b (i + 1))

unfoldable pub store_bytes : ℕ → Bytes
store_bytes val i = val / 2 ^ (8 * i) % 2 ^ 8

module _ {lib : Libraries} {W : Type 0} where
  -- A read of `n` bytes from the VMM of a range, at an offset.
  unfoldable pub ram_read : PhysMemoryMap lib W → ℕ → ℕ → ℕ → Option (ℕ × PhysMemoryMap lib W)
  ram_read map i offset n = elim (vmm_read lib (map.phys_mem_range i).vmm offset (λ k. 0) n) [
    | none ↦ none
    | some (tmp, vmm) ↦
        some (load_bytes n tmp, put_range map i (record (map.phys_mem_range i) { vmm = vmm }))
  ]

  unfoldable pub ram_write : PhysMemoryMap lib W → ℕ → ℕ → ℕ → ℕ → Option (PhysMemoryMap lib W)
  ram_write map i offset val n =
      elim (vmm_write lib (map.phys_mem_range i).vmm offset (store_bytes val) n) [
        | none ↦ none
        | some vmm ↦ some (put_range map i (record (map.phys_mem_range i) { vmm = vmm }))
      ]

  -- `phys_read_u8`, `phys_read_u32` and `phys_read_u64` of riscv_cpu.c, for 1, 4 and 8 bytes; `none`
  -- where `vmm_read` has none.
  unfoldable pub phys_read : PhysMemoryMap lib W → ℕ → ℕ → Option (ℕ × PhysMemoryMap lib W)
  phys_read map addr n = elim (get_phys_mem_range map addr) [
    | none ↦ some (0, map)
    | some i ↦
        let pr = map.phys_mem_range i in
        if pr.is_ram then ram_read map i (size_sub addr (pr.addr % 2 ^ 32)) n else some (0, map)
  ]

  unfoldable pub phys_write : PhysMemoryMap lib W → ℕ → ℕ → ℕ → Option (PhysMemoryMap lib W)
  phys_write map addr val n = elim (get_phys_mem_range map addr) [
    | none ↦ some map
    | some i ↦
        let pr = map.phys_mem_range i in
        if pr.is_ram then ram_write map i (size_sub addr (pr.addr % 2 ^ 32)) val n else some map
  ]
