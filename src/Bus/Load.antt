-- ===== src/Bus/Load.antt =====
-- Loads of words by virtual addresses, with the translation on.
use esp32_tinyemu.Prelude.{
  ℕ, ◌*◌, ◌/◌, ◌%◌, ◌^◌, ◌<◌, ◌≡◌, ◌≢◌, ◌⊎◌, inl, inr, Bool, true, false, ◌==◌, Option, none, some,
  arith, refl, sym, subst, ◌∙◌, bit, Option-cases, Bool-cases, size_sub,
}
use esp32_tinyemu.LruCache.NodeList.{Libraries}
use esp32_tinyemu.Cpu.{RiscvCpu}
use esp32_tinyemu.Bus.{
  Target, value, fault, with_exception, cause_load_page_fault, device_read, physical_read,
  aligned_read, target_read_slow,
}
use esp32_tinyemu.Iomem.{get_phys_mem_range, PhysMemoryMap}
use esp32_tinyemu.Iomem.Words.{AllRam, word}
use esp32_tinyemu.Iomem.Write.{machine_memory}
use esp32_tinyemu.Iomem.Read.{phys_read_lem}
use esp32_tinyemu.Iomem.Access.{phys_read, ram_read}
use esp32_tinyemu.Mmu.Ram.{PhysMemory}
use esp32_tinyemu.Mmu.{Access, read, access_priv, get_phys_addr}
use esp32_tinyemu.Mmu.Spec.{
  Leaf, find_leaf, is_misaligned, sv32_leaf, last_leaf, leaf_or, is_valid, is_leaf, entry_address,
  frame, page_address, may_access,
}
use esp32_tinyemu.Mmu.Laws.{answer, bit_after, unchecked_lem, checked_same}

-- A leaf stands at one of the two levels.
abbrev HasLevel : Option Leaf → Type 0
HasLevel none = 0 < 1
HasLevel (some l) = (l.shift ≡ 12) ⊎ (l.shift ≡ 22)

leaf_or-HasLevel :
    (w : ℕ → ℕ) (a shift : ℕ) (below : Option Leaf)
    → (shift ≡ 12) ⊎ (shift ≡ 22)
    → HasLevel below
    → HasLevel (leaf_or w a shift below)
leaf_or-HasLevel w a shift below level h = elim (Bool-cases (is_valid (w a))) [
  | inr e ↦ rw e (omega arith)
  | inl e ↦ elim (Bool-cases (is_leaf (w a))) [ inl l ↦ rw (e, l) level | inr n ↦ rw (e, n) h ]
]

find_leaf-HasLevel : (w : ℕ → ℕ) (root vaddr : ℕ) → HasLevel (find_leaf w root vaddr)
find_leaf-HasLevel w root vaddr =
    let a = entry_address root (vaddr / 2 ^ 22 % 1024) in
    leaf_or-HasLevel w a 22 (last_leaf w (frame (w a)) vaddr) (inr refl) (
      leaf_or-HasLevel w (entry_address (frame (w a)) (vaddr / 2 ^ 12 % 1024)) 12 none (inl refl)
        (omega arith))

page_lem :
    (l : Leaf) (vaddr : ℕ)
    → HasLevel (some l)
    → vaddr % 4 ≡ 0
    → (page_address l vaddr < 2 ^ 32) × (page_address l vaddr % 4 ≡ 0)
page_lem l vaddr (inl e) al = rw e (omega arith, omega arith)
page_lem l vaddr (inr e) al = rw e (omega arith, omega arith)

-- The address of an aligned word.
abbrev IsWord : Option ℕ → Type 0
IsWord none = 0 < 1
IsWord (some paddr) = (paddr < 2 ^ 32) × (paddr % 4 ≡ 0)

answer-IsWord :
    (ram : PhysMemory) (s : RiscvCpu) (priv : ℕ) (access : Access) (vaddr : ℕ) (found : Option Leaf)
    → HasLevel found
    → vaddr % 4 ≡ 0
    → IsWord (answer ram s priv access vaddr found)
answer-IsWord ram s priv access vaddr none h al = omega arith
answer-IsWord ram s priv access vaddr (some l) h al =
    elim (Bool-cases (may_access s priv access l.entry)) [
      | inl e ↦ rw e (page_lem l vaddr h al)
      | inr e ↦ rw e (omega arith)
    ]

module _ {lib : Libraries} {W : Type 0} where
  -- The load of a word in range `i`, of RAM or of a device.
  abbrev pub LoadsFrom : Target lib W → ℕ → PhysMemoryMap lib (RiscvCpu × W) → ℕ → ℕ → Bool → Type 0
  LoadsFrom t addr map paddr i true =
      (map' : PhysMemoryMap lib (RiscvCpu × W)) × (target_read_slow t addr 2
        ≡ some (value (some (word map paddr)), record t { mem_map = map' }))
      × AllRam map'
      × ((b : ℕ) → b < 2 ^ 32 → b % 4 ≡ 0 → word map' b ≡ word map b)
  LoadsFrom t addr map paddr i false =
      let offset = size_sub paddr ((map.phys_mem_range i).addr % 2 ^ 32) in
      let (val, t') = device_read (record t { mem_map = map }) i offset 2 in
      target_read_slow t addr 2 ≡ some (value (some val), t')

  -- The load at an address that is translated, by the range found there.
  abbrev pub LoadsAt : Target lib W → ℕ → PhysMemoryMap lib (RiscvCpu × W) → ℕ → Option ℕ → Type 0
  LoadsAt t addr map paddr none =
      target_read_slow t addr 2 ≡ some (value none, record t { mem_map = map })
  LoadsAt t addr map paddr (some i) = LoadsFrom t addr map paddr i (map.phys_mem_range i).is_ram

  -- A load with its translation: without one it is a page fault.
  abbrev pub Loads : Target lib W → ℕ → PhysMemoryMap lib (RiscvCpu × W) → Option ℕ → Type 0
  Loads t addr map none =
      target_read_slow t addr 2
      ≡ some (
        fault,
        record t { mem_map = map; core = with_exception t.core addr cause_load_page_fault },
      )
  Loads t addr map (some paddr) = LoadsAt t addr map paddr (get_phys_mem_range map paddr)

  physical_read-ram :
      (t : Target lib W) (paddr i w : ℕ) (map map' : PhysMemoryMap lib (RiscvCpu × W))
      → get_phys_mem_range map paddr ≡ some i
      → (map.phys_mem_range i).is_ram ≡ true
      → ram_read map i (size_sub paddr ((map.phys_mem_range i).addr % 2 ^ 32)) 4 ≡ some (w, map')
      → physical_read (record t { mem_map = map }) paddr 2
        ≡ some (value (some w), record t { mem_map = map' })
  unfolding physical_read
  physical_read-ram t paddr i w map map' f ram ran = rw (physical_read, f, ram, ran) refl

  translated_load :
      (t : Target lib W) (addr paddr : ℕ) (map : PhysMemoryMap lib (RiscvCpu × W))
      → AllRam map
      → paddr < 2 ^ 32
      → paddr % 4 ≡ 0
      → target_read_slow t addr 2 ≡ physical_read (record t { mem_map = map }) paddr 2
      → LoadsAt t addr map paddr (get_phys_mem_range map paddr)
  unfolding physical_read phys_read
  translated_load t addr paddr map all lt al e =
      elim (Option-cases (get_phys_mem_range map paddr)) [
        | inl n ↦ rw n (e ∙ rw (physical_read, n) refl)
        | inr (i, f) ↦ elim (Bool-cases (map.phys_mem_range i).is_ram) [
          | inr device ↦ rw (f, device) (e ∙ rw (physical_read, f, device) refl)
          | inl ram ↦
              let (map', ran, valid, same) = phys_read_lem map paddr all lt al in
              let loaded =
                e
                ∙ physical_read-ram t paddr i (word map paddr) map map' f ram
                    (direct i f ram ∙ ran) in
              subst (λ o. LoadsAt t addr map paddr o) (sym f)
                (subst (λ b. LoadsFrom t addr map paddr i b) (sym ram) (map', loaded, valid, same))
        ]
      ]
    where
      direct :
          (i : ℕ)
          → get_phys_mem_range map paddr ≡ some i
          → (map.phys_mem_range i).is_ram ≡ true
          → ram_read map i (size_sub paddr ((map.phys_mem_range i).addr % 2 ^ 32)) 4
            ≡ phys_read map paddr 4
      direct i f ram = rw (phys_read, f, ram) refl

  load_cases :
      (t : Target lib W) (addr : ℕ) (map : PhysMemoryMap lib (RiscvCpu × W)) (o : Option ℕ)
      → AllRam map
      → addr % 4 ≡ 0
      → IsWord o
      → get_phys_addr (machine_memory lib (RiscvCpu × W)) t.core t.mem_map addr read ≡ some (o, map)
      → Loads t addr map o
  unfolding target_read_slow aligned_read
  load_cases t addr map none all al w e =
      let whole : (addr % 2 ^ 2 == 0) ≡ true = ground (arith, al) in
      rw (target_read_slow, whole, aligned_read, e) refl
  load_cases t addr map (some paddr) all al w e =
      let whole : (addr % 2 ^ 2 == 0) ≡ true = ground (arith, al) in
      translated_load t addr paddr map all w.0 w.1
        (rw (target_read_slow, whole, aligned_read, e) refl)

  -- A load by the translation without the test of a superpage's alignment.
  abbrev LoadsBy : Target lib W → ℕ → Option Leaf → Type 0
  LoadsBy t addr found =
      (map : PhysMemoryMap lib (RiscvCpu × W)) × AllRam map
      × ((b k : ℕ)
          → b < 2 ^ 32
          → b % 4 ≡ 0
          → k < 32
          → bit (word map b) k
            ≡ bit_after (machine_memory lib (RiscvCpu × W)) t.core (access_priv t.core read) read
                found (word t.mem_map) b k)
      × Loads t addr map (
          answer (machine_memory lib (RiscvCpu × W)) t.core (access_priv t.core read) read addr
            found)

  unchecked_load :
      (t : Target lib W) (addr : ℕ)
      → AllRam t.mem_map
      → addr < 2 ^ 32
      → addr % 4 ≡ 0
      → t.core.satp < 2 ^ 32
      → access_priv t.core read ≢ 3
      → bit t.core.satp 31 ≡ 1
      → LoadsBy t addr (find_leaf (word t.mem_map) (t.core.satp % 2 ^ 20 * 4096) addr)
  unchecked_load t addr all lt al ls level on =
      let ram = machine_memory lib (RiscvCpu × W) in
      let priv = access_priv t.core read in
      let root = t.core.satp % 2 ^ 20 * 4096 in
      let found = find_leaf (word t.mem_map) root addr in
      let r = unchecked_lem ram t.core t.mem_map addr read all lt ls level on in
      let aligned =
        answer-IsWord ram t.core priv read addr found
          (find_leaf-HasLevel (word t.mem_map) root addr) al in
      (
        r.memory,
        r.valid,
        r.words,
        load_cases t addr r.memory (answer ram t.core priv read addr found) r.valid al aligned
            r.ends,
      )

  -- With the translation on, below level M, over valid RAM, a load of an aligned word ends and does
  -- what Sv32, with physical addresses of 32 bits, and the memory map say, if the tables do not lead
  -- to a misaligned superpage. Where Sv32 gives no address it is a load page fault with the address
  -- that failed. Otherwise it answers, by the range at the physical address, the word of the RAM there
  -- or what the device reads, and nothing where there is no range. But for the mark that Sv32 asks
  -- for, a fault and a load from RAM keep every word.
  pub load_lem :
      (t : Target lib W) (addr : ℕ)
      → AllRam t.mem_map
      → addr < 2 ^ 32
      → addr % 4 ≡ 0
      → t.core.satp < 2 ^ 32
      → access_priv t.core read ≢ 3
      → bit t.core.satp 31 ≡ 1
      → is_misaligned (find_leaf (word t.mem_map) (t.core.satp % 2 ^ 20 * 4096) addr) ≡ false
      → let priv = access_priv t.core read in
        let found = sv32_leaf (word t.mem_map) (t.core.satp % 2 ^ 20 * 4096) addr in
        (map : PhysMemoryMap lib (RiscvCpu × W)) × AllRam map
        × ((b k : ℕ)
            → b < 2 ^ 32
            → b % 4 ≡ 0
            → k < 32
            → bit (word map b) k
              ≡ bit_after
                  (machine_memory lib (RiscvCpu × W))
                  t.core
                  priv
                  read
                  found
                  (word t.mem_map)
                  b
                  k)
        × Loads t addr map (answer (machine_memory lib (RiscvCpu × W)) t.core priv read addr found)
  load_lem t addr all lt al ls level on aligned =
      let found = find_leaf (word t.mem_map) (t.core.satp % 2 ^ 20 * 4096) addr in
      subst (λ (l : Option Leaf). LoadsBy t addr l)
        (sym (checked_same (machine_memory lib (RiscvCpu × W)) found aligned))
        (unchecked_load t addr all lt al ls level on)
