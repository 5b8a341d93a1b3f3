-- ===== src/Bus/Keeps.antt =====
-- What the accesses of the core keep: its invariant, and the map but for the contents of the RAM. A
-- device may do what it likes as long as it keeps the core's invariant.
use esp32_tinyemu.Prelude.{
  ℕ, zero, suc, ◌+◌, ◌/◌, ◌%◌, ◌^◌, inl, inr, Bool, true, false, ◌&&◌, ◌==◌, Option, none, some,
  refl, sym, subst, size_add, bit, Bool-cases, Always, absent, present, Always-bind, Always-if,
  Always-elim, Always-cases,
}
use esp32_tinyemu.LruCache.NodeList.{Libraries}
use esp32_tinyemu.Cpu.{RiscvCpu}
use esp32_tinyemu.Interp.Core.{IsCore, same-IsCore}
use esp32_tinyemu.Iomem.{PhysMemoryRange, PhysMemoryMap, get_phys_mem_range}
use esp32_tinyemu.Iomem.Same.{
  SameRanges, same_map, same_then, ram_read-SameRanges, ram_write-SameRanges, phys_read-SameRanges,
  phys_write-SameRanges, dirty-SameRanges,
}
use esp32_tinyemu.Iomem.Write.{machine_memory}
use esp32_tinyemu.Mmu.{Access, read, write, code, get_phys_addr}
use esp32_tinyemu.Mmu.Keeps.{get_phys_addr-Kept}
use esp32_tinyemu.Bus.{
  Target, Loaded, value, fault, with_exception, cause_load_page_fault, cause_store_page_fault,
  cause_fetch_page_fault, devio_size32_shift, device_read, physical_read, aligned_read, two_reads,
  target_read_slow, device_write, physical_write, aligned_write, write_bytes, target_write_slow,
  target_read_insn_slow_vmm, get_vmm_insn32,
}

module _ {lib : Libraries} {W : Type 0} where
  -- The devices of a map keep the core's invariant.
  pub record KeepsCore (map : PhysMemoryMap lib (RiscvCpu × W)) : Type 0 where
    pub reads :
        (i offset size : ℕ) (s : RiscvCpu) (w : W)
        → IsCore s
        → IsCore ((map.phys_mem_range i).read_func offset size (s, w)).1.0
    pub writes :
        (i offset val size : ℕ) (s : RiscvCpu) (w : W)
        → IsCore s
        → IsCore ((map.phys_mem_range i).write_func offset val size (s, w)).0

  -- A target with the ranges of `map0`, and a core that keeps its invariant.
  pub record IsGood (map0 : PhysMemoryMap lib (RiscvCpu × W)) (t : Target lib W) : Type 0 where
    pub sound : IsCore t.core
    pub ranges : SameRanges map0 t.mem_map

  pub get_phys_addr-SameRanges :
      (s : RiscvCpu) (map : PhysMemoryMap lib (RiscvCpu × W)) (vaddr : ℕ) (access : Access)
      → Always
          (λ (r : Option ℕ × PhysMemoryMap lib (RiscvCpu × W)). SameRanges map r.1)
          (get_phys_addr (machine_memory lib (RiscvCpu × W)) s map vaddr access)
  get_phys_addr-SameRanges s map vaddr access =
      get_phys_addr-Kept (machine_memory lib (RiscvCpu × W)) SameRanges same_map
        (λ m1 m2 m3 p q. same_then p q) (λ m a. phys_read-SameRanges m a 4)
        (λ m a v. phys_write-SameRanges m a v 4) s map vaddr access

  module _ (map0 : PhysMemoryMap lib (RiscvCpu × W)) (devices : KeepsCore map0) where
    moved :
        (t : Target lib W) (map : PhysMemoryMap lib (RiscvCpu × W))
        → IsGood map0 t
        → SameRanges t.mem_map map
        → IsGood map0 (record t { mem_map = map })
    moved t map g s = record { sound = g.sound; ranges = same_then g.ranges s }

    -- A target whose core has a pending exception, or other fields that are no registers.
    pub recored :
        (t : Target lib W) (s : RiscvCpu)
        → IsGood map0 t
        → IsCore s
        → IsGood map0 (record t { core = s })
    recored t s g h = record { sound = h; ranges = g.ranges }

    pending :
        (t : Target lib W) (addr cause : ℕ)
        → IsGood map0 t
        → IsGood map0 (record t { core = with_exception t.core addr cause })
    pending t addr cause g =
        recored t (with_exception t.core addr cause) g
          (same-IsCore t.core _ refl refl refl refl refl refl g.sound)

    reading :
        (t : Target lib W) (i offset size : ℕ) (s : RiscvCpu) (w : W)
        → IsGood map0 t
        → IsCore s
        → IsCore ((t.mem_map.phys_mem_range i).read_func offset size (s, w)).1.0
    reading t i offset size s w g h =
        subst
          (λ (pr : PhysMemoryRange lib (RiscvCpu × W)).
            IsCore (pr.read_func offset size (s, w)).1.0)
          (sym (g.ranges.same_range i)) (devices.reads i offset size s w h)

    writing :
        (t : Target lib W) (i offset val size : ℕ) (s : RiscvCpu) (w : W)
        → IsGood map0 t
        → IsCore s
        → IsCore ((t.mem_map.phys_mem_range i).write_func offset val size (s, w)).0
    writing t i offset val size s w g h =
        subst
          (λ (pr : PhysMemoryRange lib (RiscvCpu × W)).
            IsCore (pr.write_func offset val size (s, w)).0)
          (sym (g.ranges.same_range i)) (devices.writes i offset val size s w h)

    device_read-IsGood :
        (t : Target lib W) (i offset size : ℕ)
        → IsGood map0 t
        → IsGood map0 (device_read t i offset size).1
    unfolding device_read
    device_read-IsGood t i offset size g =
        let pr = t.mem_map.phys_mem_range i in
        elim (Bool-cases (bit pr.devio_flags size == 1)) [
          | inl e ↦ rw e (record {
            sound = reading t i offset size t.core t.devices g g.sound;
            ranges = g.ranges;
          })
          | inr e ↦
              elim (Bool-cases ((bit pr.devio_flags devio_size32_shift == 1) && (size == 3))) [
                | inl f ↦
                    rw (e, f)
                      (record {
                        sound =
                            reading t i (size_add offset 4) 2 _ _ g
                              (reading t i offset 2 t.core t.devices g g.sound);
                        ranges = g.ranges;
                      })
                | inr f ↦ rw (e, f) g
              ]
        ]

    device_write-IsGood :
        (t : Target lib W) (i offset val size : ℕ)
        → IsGood map0 t
        → IsGood map0 (device_write t i offset val size)
    unfolding device_write
    device_write-IsGood t i offset val size g =
        let pr = t.mem_map.phys_mem_range i in
        elim (Bool-cases (bit pr.devio_flags size == 1)) [
          | inl e ↦ rw e (record {
            sound = writing t i offset (val % 2 ^ 32) size t.core t.devices g g.sound;
            ranges = g.ranges;
          })
          | inr e ↦
              elim (Bool-cases ((bit pr.devio_flags devio_size32_shift == 1) && (size == 3))) [
                | inl f ↦
                    rw (e, f)
                      (record {
                        sound =
                            writing t i (size_add offset 4) (val / 2 ^ 32 % 2 ^ 32) 2 _ _ g
                              (writing t i offset (val % 2 ^ 32) 2 t.core t.devices g g.sound);
                        ranges = g.ranges;
                      })
                | inr f ↦ rw (e, f) g
              ]
        ]

    -- A read, a write or a fetch that ended well.
    abbrev pub Good {ℓ} : {A : Type ℓ} → A × Target lib W → Type 0
    Good r = IsGood map0 r.1

    physical_read-IsGood :
        (t : Target lib W) (paddr size : ℕ)
        → IsGood map0 t
        → Always (λ (r : Loaded × Target lib W). Good r) (physical_read t paddr size)
    unfolding physical_read
    physical_read-IsGood t paddr size g =
        Always-elim (get_phys_mem_range t.mem_map paddr) (present g) (λ i.
          Always-if (t.mem_map.phys_mem_range i).is_ram
            (Always-bind (ram_read-SameRanges t.mem_map i _ (2 ^ size))
              (λ r same. present (moved t r.1 g same)))
            (present (device_read-IsGood t i _ size g)))

    physical_write-IsGood :
        (t : Target lib W) (paddr val size : ℕ)
        → IsGood map0 t
        → Always (IsGood map0) (physical_write t paddr val size)
    unfolding physical_write
    physical_write-IsGood t paddr val size g =
        Always-elim (get_phys_mem_range t.mem_map paddr) (present g) (λ i.
          Always-if (t.mem_map.phys_mem_range i).is_ram
            (Always-bind (ram_write-SameRanges _ i _ val (2 ^ size)) (λ map same.
              present (moved t map g (same_then (dirty-SameRanges t.mem_map i _) same))))
            (present (device_write-IsGood t i _ val size g)))

    aligned_read-IsGood :
        (t : Target lib W) (addr size : ℕ)
        → IsGood map0 t
        → Always (λ (r : Loaded × Target lib W). Good r) (aligned_read t addr size)
    unfolding aligned_read
    aligned_read-IsGood t addr size g =
        Always-bind (get_phys_addr-SameRanges t.core t.mem_map addr read) (λ r same.
          let g' = moved t r.1 g same in
          Always-cases r.0 _ _
            (present (pending (record t { mem_map = r.1 }) addr cause_load_page_fault g'))
            (λ paddr. physical_read-IsGood (record t { mem_map = r.1 }) paddr size g'))

    two_reads-IsGood :
        (t : Target lib W) (a0 a1 size : ℕ) (join : Option ℕ → Option ℕ → Option ℕ)
        → IsGood map0 t
        → Always (λ (r : Loaded × Target lib W). Good r) (two_reads t a0 a1 size join)
    unfolding two_reads
    two_reads-IsGood t a0 a1 size join g =
        Always-bind (aligned_read-IsGood t a0 size g) (λ r g'. first r.0 r.1 g')
      where
        second :
            (v0 : Option ℕ) (l : Loaded) (t : Target lib W)
            → IsGood map0 t
            → Always
                (λ (r : Loaded × Target lib W). Good r)
                ((elim l as (λ _. Target lib W → Option (Loaded × Target lib W)) [
                  | fault ↦ λ t''. some (fault, t'')
                  | value v1 ↦ λ t''. some (value (join v0 v1), t'')
                ])
                  t)
        second v0 fault t g = present g
        second v0 (value v1) t g = present g

        first :
            (l : Loaded) (t : Target lib W)
            → IsGood map0 t
            → Always
                (λ (r : Loaded × Target lib W). Good r)
                ((elim l as (λ _. Target lib W → Option (Loaded × Target lib W)) [
                  | fault ↦ λ t'. some (fault, t')
                  | value v0 ↦ λ t'. elim (aligned_read t' a1 size) [
                    | none ↦ none
                    | some (fault, t'') ↦ some (fault, t'')
                    | some (value v1, t'') ↦ some (value (join v0 v1), t'')
                  ]
                ])
                  t)
        first fault t g = present g
        first (value v0) t g =
            Always-bind (aligned_read-IsGood t a1 size g) (λ r g'. second v0 r.0 r.1 g')

    pub target_read_slow-IsGood :
        (t : Target lib W) (addr size : ℕ)
        → IsGood map0 t
        → Always (λ (r : Loaded × Target lib W). Good r) (target_read_slow t addr size)
    unfolding target_read_slow
    target_read_slow-IsGood t addr size g =
        Always-if (addr % 2 ^ size == 0) (aligned_read-IsGood t addr size g) (
          Always-if (size == 1) (two_reads-IsGood t _ _ _ _ g) (
            Always-if (size == 2) (two_reads-IsGood t _ _ _ _ g)
              (Always-if (size == 3) (two_reads-IsGood t _ _ _ _ g) absent)))

    aligned_write-IsGood :
        (t : Target lib W) (addr val size : ℕ)
        → IsGood map0 t
        → Always (λ (r : Bool × Target lib W). Good r) (aligned_write t addr val size)
    unfolding aligned_write
    aligned_write-IsGood t addr val size g =
        Always-bind (get_phys_addr-SameRanges t.core t.mem_map addr write) (λ r same.
          let g' = moved t r.1 g same in
          Always-cases r.0 _ _
            (present (pending (record t { mem_map = r.1 }) addr cause_store_page_fault g'))
            (λ paddr.
              Always-bind (physical_write-IsGood (record t { mem_map = r.1 }) paddr val size g')
                (λ t' h. present h)))

    write_bytes-IsGood :
        (n : ℕ) (t : Target lib W) (addr val i : ℕ)
        → IsGood map0 t
        → Always (λ (r : Bool × Target lib W). Good r) (write_bytes n t addr val i)
    unfolding write_bytes
    write_bytes-IsGood zero t addr val i g = present g
    write_bytes-IsGood (suc n) t addr val i g =
        Always-bind (aligned_write-IsGood t _ _ 0 g) (λ r g'.
          further n addr val i r.0 r.1 g' (λ t' h. write_bytes-IsGood n t' addr val (i + 1) h))
      where
        further :
            (n addr val i : ℕ) (b : Bool) (t : Target lib W)
            → IsGood map0 t
            → ((t' : Target lib W)
                → IsGood map0 t'
                → Always (λ (r : Bool × Target lib W). Good r) (write_bytes n t' addr val (i + 1)))
            → Always
                (λ (r : Bool × Target lib W). Good r)
                ((elim b as (λ _. Target lib W → Option (Bool × Target lib W)) [
                  | false ↦ λ t'. some (false, t')
                  | true ↦ λ t'. write_bytes n t' addr val (i + 1)
                ])
                  t)
        further n addr val i false t g rest = present g
        further n addr val i true t g rest = rest t g

    pub target_write_slow-IsGood :
        (t : Target lib W) (addr val size : ℕ)
        → IsGood map0 t
        → Always (λ (r : Bool × Target lib W). Good r) (target_write_slow t addr val size)
    unfolding target_write_slow
    target_write_slow-IsGood t addr val size g =
        Always-if (addr % 2 ^ size == 0) (aligned_write-IsGood t addr val size g)
          (write_bytes-IsGood (2 ^ size) t addr val 0 g)

    pub target_read_insn_slow_vmm-IsGood :
        (t : Target lib W) (addr : ℕ)
        → IsGood map0 t
        → Always (λ (r : Option ℕ × Target lib W). Good r) (target_read_insn_slow_vmm t addr)
    unfolding target_read_insn_slow_vmm
    target_read_insn_slow_vmm-IsGood t addr g =
        Always-bind (get_phys_addr-SameRanges t.core t.mem_map addr code) (λ r same.
          let g' = moved t r.1 g same in
          Always-cases r.0 _ _
            (present (pending (record t { mem_map = r.1 }) addr cause_fetch_page_fault g'))
            (λ paddr. present g'))

    pub get_vmm_insn32-IsGood :
        (t : Target lib W) (ptr : ℕ)
        → IsGood map0 t
        → Always (λ (r : ℕ × Target lib W). Good r) (get_vmm_insn32 t ptr)
    unfolding get_vmm_insn32
    get_vmm_insn32-IsGood t ptr g = Always-elim (get_phys_mem_range t.mem_map ptr) (present g) (λ i.
        Always-if (t.mem_map.phys_mem_range i).is_ram
          (Always-bind (ram_read-SameRanges t.mem_map i _ 4)
            (λ r same. present (moved t r.1 g same)))
          absent)
