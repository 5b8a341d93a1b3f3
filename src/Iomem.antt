-- ===== src/Iomem.antt =====
-- lib/tinyemu/iomem.c: the physical memory of the machine, ranges of RAM, each with its VMM, and of
-- device registers. The `register_ram`, `free_ram`, `get_dirty_bits` and `set_ram_addr` members are
-- the defaults of `phys_mem_map_init`, and `flush_tlb_write_range` does nothing, since the TLBs are
-- compiled out. A device's functions act on a state `W` that the devices share.
pub mod Access
pub mod Find
pub mod Words
pub mod Same
pub mod Read
pub mod Write
use esp32_tinyemu.Prelude.{
  ℕ, zero, suc, ◌+◌, ◌-◌, ◌*◌, ◌/◌, ◌%◌, ◌^◌, Bool, true, false, ◌&&◌, ◌||◌, not, ◌==◌,
  if◌then◌else◌, ltb, leb, Option, none, some, bit, word_or, single, size_sub, Bytes,
}
use esp32_tinyemu.Cpu.{clear}
use esp32_tinyemu.LruCache.NodeList.{Libraries}
use esp32_tinyemu.Vmm.{Vmm, VmmHeap, vmm_create, vmm_read, vmm_write}

abbrev pub phys_mem_range_max : ℕ
phys_mem_range_max = 32

abbrev pub devram_page_size_log2 : ℕ
devram_page_size_log2 = 12

-- The bit numbers of DEVRAM_FLAG_DIRTY_BITS, DEVRAM_FLAG_DISABLED and DEVIO_DISABLED.
abbrev pub devram_dirty_bits_shift : ℕ
devram_dirty_bits_shift = 1

abbrev pub devram_disabled_shift : ℕ
devram_disabled_shift = 2

abbrev pub devio_disabled_shift : ℕ
devio_disabled_shift = 4

-- `PhysMemoryRange`. `phys_mem` is always NULL, `dirty_bits` the number of the table that it points
-- to, and the `opaque` of the device is inside its functions.
pub record PhysMemoryRange (lib : Libraries) (W : Type 0) : Type 0 where
  pub addr : ℕ
  pub org_size : ℕ
  pub size : ℕ
  pub is_ram : Bool
  pub devram_flags : ℕ
  pub vmm : Vmm lib
  pub dirty_bits_size : ℕ
  pub dirty_bits : Option ℕ
  pub dirty_bits_tab : ℕ → ℕ → ℕ
  pub dirty_bits_index : ℕ
  pub read_func : ℕ → ℕ → W → ℕ × W
  pub write_func : ℕ → ℕ → ℕ → W → W
  pub devio_flags : ℕ

-- `struct PhysMemoryMap`
pub record PhysMemoryMap (lib : Libraries) (W : Type 0) : Type 0 where
  pub n_phys_mem_range : ℕ
  pub phys_mem_range : ℕ → PhysMemoryRange lib W

-- Arithmetic of `uint64_t`
abbrev pub u64_add : ℕ → ℕ → ℕ
u64_add a b = (a + b) % 2 ^ 64

abbrev pub u64_sub : ℕ → ℕ → ℕ
u64_sub a b = (a + 2 ^ 64 - b) % 2 ^ 64

abbrev pub write_table : (ℕ → ℕ → ℕ) → ℕ → (ℕ → ℕ) → ℕ → ℕ → ℕ
write_table f t g j = if t == j then g else f j

abbrev pub write_word : (ℕ → ℕ) → ℕ → ℕ → ℕ → ℕ
write_word f i x j = if i == j then x else f j

module _ {lib : Libraries} {W : Type 0} where
  unfoldable pub put_range : PhysMemoryMap lib W → ℕ → PhysMemoryRange lib W → PhysMemoryMap lib W
  put_range map i pr =
      let old = map.phys_mem_range in
      record map { phys_mem_range = λ j. if i == j then pr else old j }

  unfoldable pub phys_mem_map_init : (ℕ → PhysMemoryRange lib W) → PhysMemoryMap lib W
  phys_mem_map_init zeroed = record { n_phys_mem_range = 0; phys_mem_range = zeroed }

  unfoldable pub in_range : PhysMemoryRange lib W → ℕ → Bool
  in_range pr paddr = leb pr.addr paddr && ltb paddr (u64_add pr.addr pr.size)

  -- The loop of `get_phys_mem_range` from `i` on, with `n` rounds left.
  unfoldable pub find_range : ℕ → ℕ → (ℕ → PhysMemoryRange lib W) → ℕ → Option ℕ
  find_range zero i ranges paddr = none
  find_range (suc n) i ranges paddr =
      let rest = find_range n (i + 1) ranges paddr in
      if in_range (ranges i) paddr then some i else rest

  -- The index of the range of an address, or NULL.
  unfoldable pub get_phys_mem_range : PhysMemoryMap lib W → ℕ → Option ℕ
  get_phys_mem_range map paddr = find_range map.n_phys_mem_range 0 map.phys_mem_range paddr

  -- `none` where an assertion fails.
  unfoldable pub register_ram_entry :
      PhysMemoryMap lib W → ℕ → ℕ → ℕ → Option (ℕ × PhysMemoryMap lib W)
  register_ram_entry map addr size devram_flags =
      let i = map.n_phys_mem_range in
      let pr = record (map.phys_mem_range i) {
        is_ram = true;
        devram_flags = clear devram_flags (single devram_disabled_shift);
        addr = addr;
        org_size = size;
        size = if bit devram_flags devram_disabled_shift == 1 then 0 else size;
        dirty_bits = none;
      } in
      if ltb i phys_mem_range_max && ((size % 2 ^ devram_page_size_log2 == 0) && not (size == 0))
      then some (i, put_range (record map { n_phys_mem_range = i + 1 }) i pr)
      else none

  -- The dirty bits of a new range: two tables of zeros, the first one in use.
  unfoldable pub with_dirty_bits : PhysMemoryRange lib W → ℕ → PhysMemoryRange lib W
  with_dirty_bits pr size = record pr {
    dirty_bits_size = (size / 2 ^ devram_page_size_log2 + 31) / 32 * 4;
    dirty_bits_index = 0;
    dirty_bits_tab = λ t w. 0;
    dirty_bits = some 0;
  }

  unfoldable pub default_register_ram :
      VmmHeap → PhysMemoryMap lib W → ℕ → ℕ → ℕ → Option (ℕ × PhysMemoryMap lib W)
  default_register_ram heap map addr size devram_flags =
      let vmm_pages = if addr == 0 then 10 else 400 in
      let maximum_blocks = if addr == 0 then 12 else 500 in
      let vmm = vmm_create lib heap (size % 2 ^ 32) (1024 * 8) vmm_pages maximum_blocks in
      elim (register_ram_entry map addr size devram_flags) [
        | none ↦ none
        | some (i, map') ↦
            let pr = record (map'.phys_mem_range i) { vmm = vmm } in
            some (
              i,
              put_range map' i (
                  if bit devram_flags devram_dirty_bits_shift == 1
                  then with_dirty_bits pr size
                  else pr),
            )
      ]

  unfoldable pub cpu_register_device :
      PhysMemoryMap lib W
      → ℕ
      → ℕ
      → (ℕ → ℕ → W → ℕ × W)
      → (ℕ → ℕ → ℕ → W → W)
      → ℕ
      → Option (ℕ × PhysMemoryMap lib W)
  cpu_register_device map addr size read_func write_func devio_flags =
      let i = map.n_phys_mem_range in
      let pr = record (map.phys_mem_range i) {
        addr = addr;
        org_size = size;
        size = if bit devio_flags devio_disabled_shift == 1 then 0 else size;
        is_ram = false;
        read_func = read_func;
        write_func = write_func;
        devio_flags = devio_flags;
      } in
      if ltb i phys_mem_range_max && leb size 0xffffffff
      then some (i, put_range (record map { n_phys_mem_range = i + 1 }) i pr)
      else none

  -- `default_set_addr`, for RAM and devices alike
  unfoldable pub phys_mem_set_addr : PhysMemoryRange lib W → ℕ → Bool → PhysMemoryRange lib W
  phys_mem_set_addr pr addr enabled =
      if enabled
      then if (pr.size == 0) || not (pr.addr == addr)
        then record pr { addr = addr; size = pr.org_size }
        else pr
      else if pr.size == 0
      then pr
      else record pr { addr = 0; size = 0 }

  -- The table that was in use, and the range that uses the other one, cleared.
  unfoldable pub default_get_dirty_bits : PhysMemoryRange lib W → Option ℕ × PhysMemoryRange lib W
  default_get_dirty_bits pr =
      let next = 1 - pr.dirty_bits_index in
      (
        pr.dirty_bits,
        elim pr.dirty_bits [
          | none ↦ record pr { dirty_bits_index = next }
          | some t ↦ record pr {
            dirty_bits_index = next;
            dirty_bits = some next;
            dirty_bits_tab = write_table pr.dirty_bits_tab next (λ w. 0);
          }
        ],
      )

  unfoldable pub phys_mem_set_dirty_bit : PhysMemoryRange lib W → ℕ → PhysMemoryRange lib W
  phys_mem_set_dirty_bit pr offset =
      let page_index = offset / 2 ^ devram_page_size_log2 in
      let i = page_index / 32 in
      elim pr.dirty_bits [
        | none ↦ pr
        | some t ↦
            let word = word_or (pr.dirty_bits_tab t i) (single (page_index % 32)) in
            record pr {
              dirty_bits_tab =
                  write_table pr.dirty_bits_tab t (write_word (pr.dirty_bits_tab t) i word);
            }
      ]

  unfoldable pub phys_mem_is_dirty_bit : PhysMemoryRange lib W → ℕ → Bool
  phys_mem_is_dirty_bit pr offset =
      let page_index = offset / 2 ^ devram_page_size_log2 in
      elim pr.dirty_bits [
        | none ↦ true
        | some t ↦ bit (pr.dirty_bits_tab t (page_index / 32)) (page_index % 32) == 1
      ]

  unfoldable pub phys_mem_reset_dirty_bit : PhysMemoryRange lib W → ℕ → PhysMemoryRange lib W
  phys_mem_reset_dirty_bit pr offset =
      let page_index = offset / 2 ^ devram_page_size_log2 in
      let i = page_index / 32 in
      elim pr.dirty_bits [
        | none ↦ pr
        | some t ↦
            if bit (pr.dirty_bits_tab t i) (page_index % 32) == 1
            then record pr {
              dirty_bits_tab = write_table pr.dirty_bits_tab t (
                  write_word (pr.dirty_bits_tab t) i
                    (clear (pr.dirty_bits_tab t i) (single (page_index % 32))));
            }
            else pr
      ]

  -- The pointer, which is the offset in the range: 0 is NULL.
  unfoldable pub phys_mem_get_ram_ptr : PhysMemoryMap lib W → ℕ → Bool → ℕ × PhysMemoryMap lib W
  phys_mem_get_ram_ptr map paddr is_rw = elim (get_phys_mem_range map paddr) [
    | none ↦ (0, map)
    | some i ↦
        let pr = map.phys_mem_range i in
        let offset = u64_sub paddr pr.addr in
        if pr.is_ram
        then (offset, if is_rw then put_range map i (phys_mem_set_dirty_bit pr offset) else map)
        else (0, map)
  ]
