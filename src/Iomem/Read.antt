-- ===== src/Iomem/Read.antt =====
-- Reads of aligned words in the RAM of the machine.
use esp32_tinyemu.Prelude.{
  ℕ, ◌+◌, ◌-◌, ◌%◌, ◌^◌, ◌≤◌, ◌<◌, ◌≡◌, inl, inr, some, arith, refl, ap, ◌∙◌, Bytes, Bool-cases,
  Option-cases,
}
use esp32_tinyemu.LruCache.NodeList.{Libraries}
use esp32_tinyemu.Vmm.{Vmm}
use esp32_tinyemu.Vmm.Inv.{IsValid}
use esp32_tinyemu.Vmm.Range.{HoldsPages}
use esp32_tinyemu.Vmm.Read.{vmm_read_lem}
use esp32_tinyemu.Iomem.{PhysMemoryRange, PhysMemoryMap, get_phys_mem_range}
use esp32_tinyemu.Iomem.Access.{load_bytes, ram_read, phys_read}
use esp32_tinyemu.Iomem.Words.{
  IsRam, AllRam, ram_byte, ram_word, word, in_lem, found_in, with_vmm, vmm_word, ram_word-same,
  kept_word, with_vmm-AllRam, word-ram, phys_read-ram,
}

module _ {lib : Libraries} {W : Type 0} where
  -- The range after its VMM has changed but for its page size.
  pub vmm-IsRam :
      (pr : PhysMemoryRange lib W) (vmm : Vmm lib) (r : IsRam pr)
      → IsValid lib r.page_size r.blocks vmm
      → HoldsPages r.page_size r.count vmm
      → IsRam (record pr { vmm = vmm })
  vmm-IsRam pr vmm r v h = record {
    page_size = r.page_size;
    blocks = r.blocks;
    count = r.count;
    valid = v;
    holds = h;
    fits = r.fits;
    aligned = r.aligned;
    whole = r.whole;
    addressable = r.addressable;
  }

  pub loaded :
      (pr : PhysMemoryRange lib W) (off : ℕ) (target : Bytes)
      → ((k : ℕ) → k < 4 → target k ≡ ram_byte pr (off + k))
      → load_bytes 4 target ≡ ram_word pr off
  unfolding load_bytes
  loaded pr off target same =
      rw (same 0 (omega arith), same 1 (omega arith), same 2 (omega arith), same 3 (omega arith))
        refl

  ram_read_lem :
      (map : PhysMemoryMap lib W) (i off : ℕ)
      → IsRam (map.phys_mem_range i)
      → off + 4 ≤ (map.phys_mem_range i).size
      → (vmm : Vmm lib) × (ram_read map i off 4
          ≡ some (ram_word (map.phys_mem_range i) off, with_vmm map i vmm))
        × IsRam (record (map.phys_mem_range i) { vmm = vmm })
        × ((a : ℕ)
            → ram_byte (record (map.phys_mem_range i) { vmm = vmm }) a
              ≡ ram_byte (map.phys_mem_range i) a)
  unfolding ram_read
  ram_read_lem map i off r fits =
      let pr = map.phys_mem_range i in
      let (target, vmm, ran, reads) =
        vmm_read_lem lib r.page_size r.blocks r.count off (λ k. 0) 4 r.valid r.holds
          (omega (arith, r.fits)) in
      (
        vmm,
        rw (ram_read, ran)
            (ap (λ w. some (w, with_vmm map i vmm))
              (loaded pr off target
                (λ k lt. rw r.valid.page_size (reads.delivered k ∙ ground arith)))),
        vmm-IsRam pr vmm r reads.follows.valid reads.follows.holds,
        λ a. rw (reads.follows.valid.page_size, r.valid.page_size) (reads.memory a),
      )

  -- In such a map, a read of an aligned address of the 32-bit space returns the word there, 0 outside
  -- of the RAM, and leaves a valid map with the same words.
  pub phys_read_lem :
      (map : PhysMemoryMap lib W) (a : ℕ)
      → AllRam map
      → a < 2 ^ 32
      → a % 4 ≡ 0
      → (map' : PhysMemoryMap lib W) × (phys_read map a 4 ≡ some (word map a, map'))
        × AllRam map'
        × ((b : ℕ) → b < 2 ^ 32 → b % 4 ≡ 0 → word map' b ≡ word map b)
  unfolding phys_read ram_read
  phys_read_lem map a all lt al = elim (Option-cases (get_phys_mem_range map a)) [
    | inl e ↦ (map, rw (phys_read, e) refl, all, λ b lb ab. refl)
    | inr (i, e) ↦ elim (Bool-cases (map.phys_mem_range i).is_ram) [
      | inr device ↦ (map, rw (phys_read, e, device) refl, all, λ b lb ab. refl)
      | inl ram ↦
          let pr = map.phys_mem_range i in
          let r = all i ram in
          let inside = in_lem pr a r (found_in map a i e) al in
          let (vmm, ran, r', same) = ram_read_lem map i (a - pr.addr) r (omega arith) in
          (
            with_vmm map i vmm,
            phys_read-ram map a i e ram r al lt
                ∙ (ran ∙ ap (λ w. some (w, with_vmm map i vmm)) (word-ram map a i e ram)),
            with_vmm-AllRam map i vmm all r',
            λ b lb ab.
                vmm_word map i vmm b ram
                ∙ kept_word map i vmm b ram (λ o. ram_word-same pr vmm o same),
          )
    ]
  ]
