-- ===== src/Iomem/Same.antt =====
-- Accesses to the RAM change its contents and not the map.
use esp32_tinyemu.Prelude.{
  ℕ, ◌≡◌, inl, inr, ◌==◌, arith, refl, ap, ◌∙◌, Bool-cases, Always, present, Always-case,
  Option-cases,
}
use esp32_tinyemu.LruCache.NodeList.{Libraries}
use esp32_tinyemu.Vmm.{Vmm, vmm_read, vmm_write}
use esp32_tinyemu.Iomem.{
  PhysMemoryRange, PhysMemoryMap, get_phys_mem_range, find_range, in_range, put_range,
  phys_mem_set_dirty_bit,
}
use esp32_tinyemu.Iomem.Find.{find_range-same}
use esp32_tinyemu.Iomem.Access.{store_bytes, ram_read, ram_write, phys_read, phys_write}

module _ {lib : Libraries} {W : Type 0} where
  -- The ranges of a map but for the contents of the RAM and its dirty bits.
  pub record SameRanges (map map' : PhysMemoryMap lib W) : Type 0 where
    pub same_count : map'.n_phys_mem_range ≡ map.n_phys_mem_range
    pub same_range :
        (i : ℕ)
        → map'.phys_mem_range i ≡ record (map.phys_mem_range i) {
          vmm = (map'.phys_mem_range i).vmm;
          dirty_bits_tab = (map'.phys_mem_range i).dirty_bits_tab;
        }

  pub same_map : (map : PhysMemoryMap lib W) → SameRanges map map
  same_map map = record { same_count = refl; same_range = λ i. refl }

  pub same_then :
      {m1 m2 m3 : PhysMemoryMap lib W} → SameRanges m1 m2 → SameRanges m2 m3 → SameRanges m1 m3
  same_then {m1} {m2} {m3} p q = record {
    same_count = q.same_count ∙ p.same_count;
    same_range = λ i.
        q.same_range i
        ∙ ap
            (λ (pr : PhysMemoryRange lib W). record pr {
              vmm = (m3.phys_mem_range i).vmm;
              dirty_bits_tab = (m3.phys_mem_range i).dirty_bits_tab;
            })
            (p.same_range i);
  }

  pub put-SameRanges :
      (map : PhysMemoryMap lib W) (i : ℕ) (vmm : Vmm lib) (tab : ℕ → ℕ → ℕ)
      → SameRanges map
          (put_range map i (record (map.phys_mem_range i) { vmm = vmm; dirty_bits_tab = tab }))
  unfolding put_range
  put-SameRanges map i vmm tab = record {
    same_count = refl;
    same_range = λ j. elim (Bool-cases (i == j)) [
      | inl e ↦ (let same : i ≡ j = ground (arith, e) in rw (e, same) refl)
      | inr e ↦ rw e refl
    ];
  }

  pub ram_read-SameRanges :
      (map : PhysMemoryMap lib W) (i offset n : ℕ)
      → Always (λ (r : ℕ × PhysMemoryMap lib W). SameRanges map r.1) (ram_read map i offset n)
  unfolding ram_read
  ram_read-SameRanges map i offset n =
      Always-case (vmm_read lib (map.phys_mem_range i).vmm offset (λ k. 0) n)
        (λ x. present (put-SameRanges map i x.1 (map.phys_mem_range i).dirty_bits_tab))

  pub ram_write-SameRanges :
      (map : PhysMemoryMap lib W) (i offset val n : ℕ)
      → Always (SameRanges map) (ram_write map i offset val n)
  unfolding ram_write
  ram_write-SameRanges map i offset val n =
      Always-case (vmm_write lib (map.phys_mem_range i).vmm offset (store_bytes val) n)
        (λ vmm. present (put-SameRanges map i vmm (map.phys_mem_range i).dirty_bits_tab))

  pub phys_read-SameRanges :
      (map : PhysMemoryMap lib W) (addr n : ℕ)
      → Always (λ (r : ℕ × PhysMemoryMap lib W). SameRanges map r.1) (phys_read map addr n)
  unfolding phys_read
  phys_read-SameRanges map addr n = elim (Option-cases (get_phys_mem_range map addr)) [
    | inl e ↦ rw (phys_read, e) (present (same_map map))
    | inr (i, e) ↦ elim (Bool-cases (map.phys_mem_range i).is_ram) [
      | inl ram ↦ rw (phys_read, e, ram) (ram_read-SameRanges map i _ n)
      | inr device ↦ rw (phys_read, e, device) (present (same_map map))
    ]
  ]

  pub phys_write-SameRanges :
      (map : PhysMemoryMap lib W) (addr val n : ℕ)
      → Always (SameRanges map) (phys_write map addr val n)
  unfolding phys_write
  phys_write-SameRanges map addr val n = elim (Option-cases (get_phys_mem_range map addr)) [
    | inl e ↦ rw (phys_write, e) (present (same_map map))
    | inr (i, e) ↦ elim (Bool-cases (map.phys_mem_range i).is_ram) [
      | inl ram ↦ rw (phys_write, e, ram) (ram_write-SameRanges map i _ val n)
      | inr device ↦ rw (phys_write, e, device) (present (same_map map))
    ]
  ]

  pub dirty-SameRanges :
      (map : PhysMemoryMap lib W) (i offset : ℕ)
      → SameRanges map (put_range map i (phys_mem_set_dirty_bit (map.phys_mem_range i) offset))
  unfolding phys_mem_set_dirty_bit
  dirty-SameRanges map i offset = elim (Option-cases (map.phys_mem_range i).dirty_bits) [
    | inl e ↦
        rw (phys_mem_set_dirty_bit, e)
          (put-SameRanges map i (map.phys_mem_range i).vmm (map.phys_mem_range i).dirty_bits_tab)
    | inr (t, e) ↦
        rw (phys_mem_set_dirty_bit, e) (put-SameRanges map i (map.phys_mem_range i).vmm _)
  ]

  -- An address falls into the same range.
  pub same_find :
      (map map' : PhysMemoryMap lib W) (addr : ℕ)
      → SameRanges map map'
      → get_phys_mem_range map' addr ≡ get_phys_mem_range map addr
  unfolding get_phys_mem_range in_range
  same_find map map' addr same =
      ap (λ n. find_range n 0 map'.phys_mem_range addr) same.same_count
      ∙ find_range-same map.n_phys_mem_range 0 map'.phys_mem_range map.phys_mem_range addr
          (λ j. ap (λ (pr : PhysMemoryRange lib W). in_range pr addr) (same.same_range j))
