-- ===== src/Bus.antt =====
-- `target_read_slow`, `target_write_slow` and the fetching of instructions of
-- lib/tinyemu/riscv_cpu.c: accesses of the core by virtual addresses.
pub mod Load
pub mod Keeps
use esp32_tinyemu.Prelude.{
  ℕ, zero, suc, ◌+◌, ◌-◌, ◌*◌, ◌/◌, ◌%◌, ◌^◌, Bool, true, false, ◌&&◌, ◌==◌, if◌then◌else◌, Option,
  none, some, size_add, size_sub, bit,
}
use esp32_tinyemu.LruCache.NodeList.{Libraries}
use esp32_tinyemu.Cpu.{RiscvCpu}
use esp32_tinyemu.Iomem.{
  PhysMemoryRange, PhysMemoryMap, get_phys_mem_range, put_range, phys_mem_set_dirty_bit, u64_sub,
}
use esp32_tinyemu.Iomem.Access.{ram_read, ram_write}
use esp32_tinyemu.Iomem.Write.{machine_memory}
use esp32_tinyemu.Mmu.{Access, read, write, code, get_phys_addr}

abbrev pub cause_load_page_fault : ℕ
cause_load_page_fault = 0xd

abbrev pub cause_store_page_fault : ℕ
cause_store_page_fault = 0xf

abbrev pub cause_fetch_page_fault : ℕ
cause_fetch_page_fault = 0xc

-- The bit number of DEVIO_SIZE32.
abbrev pub devio_size32_shift : ℕ
devio_size32_shift = 2

-- The core with its memory map and what the devices keep. A device's functions act on the core, whose
-- pending bits they change, and on the devices.
pub record Target (lib : Libraries) (W : Type 0) : Type 0 where
  pub core : RiscvCpu
  pub mem_map : PhysMemoryMap lib (RiscvCpu × W)
  pub devices : W

-- The result 0 with the value of `*pval`, `none` where the code leaves it as it was; or -1.
pub data Loaded : Type 0 where
  value : Option ℕ → Loaded
  fault : Loaded

-- The pending exception of an access that was not translated.
abbrev pub with_exception : RiscvCpu → ℕ → ℕ → RiscvCpu
with_exception s addr cause = record s { pending_tval = addr; pending_exception = some cause }

-- `v0 | (v1 << 8)`
abbrev pub join_bytes : Option ℕ → Option ℕ → Option ℕ
join_bytes none v1 = none
join_bytes (some v0) none = none
join_bytes (some v0) (some v1) = some (v0 + v1 * 2 ^ 8)

-- `(v0 >> (al * 8)) | (v1 << (width - al * 8))`, of `width` bits
abbrev pub join_words : ℕ → ℕ → Option ℕ → Option ℕ → Option ℕ
join_words width al none v1 = none
join_words width al (some v0) none = none
join_words width al (some v0) (some v1) =
    some (v0 / 2 ^ (al * 8) + v1 * 2 ^ (width - al * 8) % 2 ^ width)

module _ {lib : Libraries} {W : Type 0} where
  -- The read of a device's register.
  unfoldable pub device_read : Target lib W → ℕ → ℕ → ℕ → ℕ × Target lib W
  device_read t i offset size_log2 =
      let pr = t.mem_map.phys_mem_range i in
      if bit pr.devio_flags size_log2 == 1
      then (let (val, (s, w)) = pr.read_func offset size_log2 (t.core, t.devices) in
          (val % 2 ^ 32, record t { core = s; devices = w }))
      else if (bit pr.devio_flags devio_size32_shift == 1) && (size_log2 == 3)
      then (let (low, (s, w)) = pr.read_func offset 2 (t.core, t.devices) in
          let (high, (s', w')) = pr.read_func (size_add offset 4) 2 (s, w) in
          (low % 2 ^ 32 + high % 2 ^ 32 * 2 ^ 32, record t { core = s'; devices = w' }))
      else (0, t)

  -- The read of an address that is translated.
  unfoldable pub physical_read : Target lib W → ℕ → ℕ → Option (Loaded × Target lib W)
  physical_read t paddr size_log2 = elim (get_phys_mem_range t.mem_map paddr) [
    | none ↦ some (value none, t)
    | some i ↦
        let pr = t.mem_map.phys_mem_range i in
        let offset = size_sub paddr (pr.addr % 2 ^ 32) in
        if pr.is_ram
        then elim (ram_read t.mem_map i offset (2 ^ size_log2)) [
          | none ↦ none
          | some (val, map) ↦ some (value (some val), record t { mem_map = map })
        ]
        else let (val, t') = device_read t i offset size_log2 in some (value (some val), t')
  ]

  -- `target_read_slow` of an aligned address.
  unfoldable pub aligned_read : Target lib W → ℕ → ℕ → Option (Loaded × Target lib W)
  aligned_read t addr size_log2 =
      elim (get_phys_addr (machine_memory lib (RiscvCpu × W)) t.core t.mem_map addr read) [
        | none ↦ none
        | some (none, map) ↦ some (
          fault,
          record t { mem_map = map; core = with_exception t.core addr cause_load_page_fault },
        )
        | some (some paddr, map) ↦ physical_read (record t { mem_map = map }) paddr size_log2
      ]

  -- The two aligned reads of an unaligned one.
  unfoldable pub two_reads :
      Target lib W → ℕ → ℕ → ℕ → (Option ℕ → Option ℕ → Option ℕ) → Option (Loaded × Target lib W)
  two_reads t a0 a1 size_log2 join = elim (aligned_read t a0 size_log2) [
    | none ↦ none
    | some (fault, t') ↦ some (fault, t')
    | some (value v0, t') ↦ elim (aligned_read t' a1 size_log2) [
      | none ↦ none
      | some (fault, t'') ↦ some (fault, t'')
      | some (value v1, t'') ↦ some (value (join v0 v1), t'')
    ]
  ]

  -- `none` also where the code aborts, at a size that it does not know.
  unfoldable pub target_read_slow : Target lib W → ℕ → ℕ → Option (Loaded × Target lib W)
  target_read_slow t addr size_log2 =
      let al = addr % 2 ^ size_log2 in
      if al == 0
      then aligned_read t addr size_log2
      else if size_log2 == 1
      then two_reads t addr (size_add addr 1) 0 join_bytes
      else if size_log2 == 2
      then two_reads t (size_sub addr al) (size_add (size_sub addr al) 4) 2 (join_words 32 al)
      else if size_log2 == 3
      then two_reads t (size_sub addr al) (size_add (size_sub addr al) 8) 3 (join_words 64 al)
      else none

  unfoldable pub device_write : Target lib W → ℕ → ℕ → ℕ → ℕ → Target lib W
  device_write t i offset val size_log2 =
      let pr = t.mem_map.phys_mem_range i in
      if bit pr.devio_flags size_log2 == 1
      then (let (s, w) = pr.write_func offset (val % 2 ^ 32) size_log2 (t.core, t.devices) in
          record t { core = s; devices = w })
      else if (bit pr.devio_flags devio_size32_shift == 1) && (size_log2 == 3)
      then (let st = pr.write_func offset (val % 2 ^ 32) 2 (t.core, t.devices) in
          let (s, w) = pr.write_func (size_add offset 4) (val / 2 ^ 32 % 2 ^ 32) 2 st in
          record t { core = s; devices = w })
      else t

  unfoldable pub physical_write : Target lib W → ℕ → ℕ → ℕ → Option (Target lib W)
  physical_write t paddr val size_log2 = elim (get_phys_mem_range t.mem_map paddr) [
    | none ↦ some t
    | some i ↦
        let pr = t.mem_map.phys_mem_range i in
        let offset = size_sub paddr (pr.addr % 2 ^ 32) in
        if pr.is_ram
        then elim (ram_write (put_range t.mem_map i (phys_mem_set_dirty_bit pr offset)) i offset val
            (2 ^ size_log2)) [ none ↦ none | some map ↦ some (record t { mem_map = map }) ]
        else some (device_write t i offset val size_log2)
  ]

  -- `target_write_slow` of an aligned address: whether it was written, which is the result 0.
  unfoldable pub aligned_write : Target lib W → ℕ → ℕ → ℕ → Option (Bool × Target lib W)
  aligned_write t addr val size_log2 =
      elim (get_phys_addr (machine_memory lib (RiscvCpu × W)) t.core t.mem_map addr write) [
        | none ↦ none
        | some (none, map) ↦ some (
          false,
          record t { mem_map = map; core = with_exception t.core addr cause_store_page_fault },
        )
        | some (some paddr, map) ↦
            elim (physical_write (record t { mem_map = map }) paddr val size_log2) [
              | none ↦ none
              | some t' ↦ some (true, t')
            ]
      ]

  -- The bytes of an unaligned write from `i` on, `n` of them, up to the first that faults.
  unfoldable pub write_bytes : ℕ → Target lib W → ℕ → ℕ → ℕ → Option (Bool × Target lib W)
  write_bytes zero t addr val i = some (true, t)
  write_bytes (suc n) t addr val i =
      elim (aligned_write t (size_add addr i) (val / 2 ^ (8 * i) % 2 ^ 8) 0) [
        | none ↦ none
        | some (false, t') ↦ some (false, t')
        | some (true, t') ↦ write_bytes n t' addr val (i + 1)
      ]

  unfoldable pub target_write_slow : Target lib W → ℕ → ℕ → ℕ → Option (Bool × Target lib W)
  target_write_slow t addr val size_log2 =
      if addr % 2 ^ size_log2 == 0
      then aligned_write t addr val size_log2
      else write_bytes (2 ^ size_log2) t addr val 0

  -- The physical address of an instruction, or a fault.
  unfoldable pub target_read_insn_slow_vmm : Target lib W → ℕ → Option (Option ℕ × Target lib W)
  target_read_insn_slow_vmm t addr =
      elim (get_phys_addr (machine_memory lib (RiscvCpu × W)) t.core t.mem_map addr code) [
        | none ↦ none
        | some (none, map) ↦ some (
          none,
          record t { mem_map = map; core = with_exception t.core addr cause_fetch_page_fault },
        )
        | some (some paddr, map) ↦ some (some paddr, record t { mem_map = map })
      ]

  -- The instruction at a physical address: 0 where there is no range, and no result where the range
  -- is a device's, whose `vmm` is NULL.
  unfoldable pub get_vmm_insn32 : Target lib W → ℕ → Option (ℕ × Target lib W)
  get_vmm_insn32 t ptr = elim (get_phys_mem_range t.mem_map ptr) [
    | none ↦ some (0, t)
    | some i ↦
        let offset = size_sub ptr ((t.mem_map.phys_mem_range i).addr % 2 ^ 32) in
        if (t.mem_map.phys_mem_range i).is_ram
        then elim (ram_read t.mem_map i offset 4) [
          | none ↦ none
          | some (insn, map) ↦ some (insn, record t { mem_map = map })
        ]
        else none
  ]
