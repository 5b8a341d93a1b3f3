-- ===== src/Iomem/Write.antt =====
-- Writes of aligned words in the RAM of the machine, and the memory of words that the translation of
-- addresses relies on.
use esp32_tinyemu.Prelude.{
  ℕ, ◌+◌, ◌-◌, ◌%◌, ◌^◌, ◌≤◌, ◌<◌, ◌≡◌, ◌≢◌, inl, inr, true, false, ◌&&◌, ◌==◌, if◌then◌else◌, ltb,
  leb, Option, none, some, arith, refl, ap, sym, ◌∙◌, Bool-cases, Option-cases,
}
use esp32_tinyemu.LruCache.NodeList.{Libraries}
use esp32_tinyemu.Vmm.{Vmm}
use esp32_tinyemu.Vmm.Write.{vmm_write_lem}
use esp32_tinyemu.Iomem.{PhysMemoryRange, PhysMemoryMap, get_phys_mem_range}
use esp32_tinyemu.Iomem.Access.{store_bytes, ram_write, phys_read, phys_write}
use esp32_tinyemu.Mmu.Ram.{PhysMemory}
use esp32_tinyemu.Iomem.Words.{
  IsRam, AllRam, ram_byte, ram_word, word_in, word, in_lem, found_in, load-store, with_vmm,
  word_after, vmm_word, with_vmm-AllRam, word_in-ram, phys_write-ram,
}
use esp32_tinyemu.Iomem.Read.{vmm-IsRam, loaded, phys_read_lem}

from_start :
    (off a x y : ℕ)
    → (if leb (off + 0) a && ltb a (off + 0 + 4) then x else y)
      ≡ (if leb off a && ltb a (off + 4) then x else y)
from_start off a x y = ground arith

hit_test : (off k : ℕ) → k < 4 → (leb off (off + k) && ltb (off + k) (off + 4)) ≡ true
hit_test off k lt = ground arith

-- Aligned words do not overlap.
miss_test :
    (off o k : ℕ)
    → off % 4 ≡ 0
    → o % 4 ≡ 0
    → (off == o) ≡ false
    → k < 4
    → (leb off (o + k) && ltb (o + k) (off + 4)) ≡ false
miss_test off o k a b ne lt = ground (arith, ne)

from_some : (j i : ℕ) → some j ≡ some i → j ≡ i
from_some j i e = ap (λ (o : Option ℕ). elim o [ none ↦ 0 | some x ↦ x ]) e

module _ {lib : Libraries} {W : Type 0} where
  ram_write_lem :
      (map : PhysMemoryMap lib W) (i off v : ℕ)
      → IsRam (map.phys_mem_range i)
      → off + 4 ≤ (map.phys_mem_range i).size
      → (vmm : Vmm lib) × (ram_write map i off v 4 ≡ some (with_vmm map i vmm))
        × IsRam (record (map.phys_mem_range i) { vmm = vmm })
        × ((a : ℕ)
            → ram_byte (record (map.phys_mem_range i) { vmm = vmm }) a ≡ (
                if leb off a && ltb a (off + 4)
                then store_bytes v (a - off)
                else ram_byte (map.phys_mem_range i) a))
  unfolding ram_write
  ram_write_lem map i off v r fits =
      let pr = map.phys_mem_range i in
      let (vmm, ran, writes) =
        vmm_write_lem lib r.page_size r.blocks r.count off (store_bytes v) 4 r.valid r.holds
          (omega (arith, r.fits)) in
      (
        vmm,
        rw (ram_write, ran) refl,
        vmm-IsRam pr vmm r writes.follows.valid writes.follows.holds,
        λ a.
            rw (writes.follows.valid.page_size, r.valid.page_size)
              (writes.stored a ∙ from_start off a _ _),
      )

  stored_hit :
      (pr' pr : PhysMemoryRange lib W) (off v : ℕ)
      → v < 2 ^ 32
      → ((a : ℕ)
          → ram_byte pr' a
            ≡ (if leb off a && ltb a (off + 4) then store_bytes v (a - off) else ram_byte pr a))
      → ram_word pr' off ≡ v
  stored_hit pr' pr off v lv bytes =
      sym (loaded pr' off (store_bytes v) (λ k lt. sym (bytes (off + k) ∙ byte k lt)))
      ∙ load-store v lv
    where
      byte :
          (k : ℕ)
          → k < 4
          → (if leb off (off + k) && ltb (off + k) (off + 4)
              then store_bytes v (off + k - off)
              else ram_byte pr (off + k))
            ≡ store_bytes v k
      byte k lt = rw (hit_test off k lt) (ap (store_bytes v) (omega arith))

  stored_miss :
      (pr' pr : PhysMemoryRange lib W) (off v o : ℕ)
      → off % 4 ≡ 0
      → o % 4 ≡ 0
      → (off == o) ≡ false
      → ((a : ℕ)
          → ram_byte pr' a
            ≡ (if leb off a && ltb a (off + 4) then store_bytes v (a - off) else ram_byte pr a))
      → ram_word pr' o ≡ ram_word pr o
  stored_miss pr' pr off v o al ao ne bytes =
      sym (loaded pr' o (λ k. ram_byte pr (o + k)) (λ k lt. sym (bytes (o + k) ∙ byte k lt)))
    where
      byte :
          (k : ℕ)
          → k < 4
          → (if leb off (o + k) && ltb (o + k) (off + 4)
              then store_bytes v (o + k - off)
              else ram_byte pr (o + k))
            ≡ ram_byte pr (o + k)
      byte k lt = rw (miss_test off o k al ao ne lt) refl

  -- Where a word is not 0 there is RAM.
  ram_at :
      (map : PhysMemoryMap lib W) (a : ℕ)
      → word map a ≢ 0
      → (i : ℕ) × (get_phys_mem_range map a ≡ some i) × ((map.phys_mem_range i).is_ram ≡ true)
  ram_at map a ne = elim (Option-cases (get_phys_mem_range map a)) [
    | inl e ↦ absurd (ne (ap (λ o. word_in map o a) e))
    | inr (i, e) ↦ elim (Bool-cases (map.phys_mem_range i).is_ram) [
      | inl ram ↦ (i, e, ram)
      | inr device ↦ absurd (ne (ap (λ o. word_in map o a) e ∙ rw device refl))
    ]
  ]

  elsewhere :
      (map : PhysMemoryMap lib W) (a b i : ℕ) (o : Option ℕ)
      → get_phys_mem_range map a ≡ some i
      → get_phys_mem_range map b ≡ o
      → o ≢ some i
      → (a == b) ≡ false
  elsewhere map a b i o ea eb ne = elim (Bool-cases (a == b)) [
    | inl e ↦ absurd (ne (sym eb ∙ (ap (get_phys_mem_range map) (ground (arith, e)) ∙ ea)))
    | inr f ↦ f
  ]

  written_word :
      (map : PhysMemoryMap lib W) (a v i : ℕ) (vmm : Vmm lib) (b : ℕ)
      → IsRam (map.phys_mem_range i)
      → get_phys_mem_range map a ≡ some i
      → (map.phys_mem_range i).is_ram ≡ true
      → v < 2 ^ 32
      → a % 4 ≡ 0
      → b % 4 ≡ 0
      → ((x : ℕ)
          → let off = a - (map.phys_mem_range i).addr in
            ram_byte (record (map.phys_mem_range i) { vmm = vmm }) x ≡ (
              if leb off x && ltb x (off + 4)
              then store_bytes v (x - off)
              else ram_byte (map.phys_mem_range i) x))
      → word_after map i vmm (get_phys_mem_range map b) b ≡ (if a == b then v else word map b)
  written_word map a v i vmm b r e ram lv al ab bytes =
      let pr = map.phys_mem_range i in
      elim (Option-cases (get_phys_mem_range map b)) [
        | inl n ↦ rw (elsewhere map a b i none e n (λ q. ground (arith, q)), n) refl
        | inr (j, ej) ↦ elim (Bool-cases (i == j)) [
          | inr ne ↦
              rw
                (
                  elsewhere map a b i (some j) e ej (λ q. ground (arith, ne, from_some j i q)),
                  ej,
                  ne,
                )
                refl
          | inl same ↦ elim (Bool-cases (a == b)) [
            | inl at ↦
                rw (at, ej, same)
                  (ap (λ t. ram_word (record pr { vmm = vmm }) (t - pr.addr)) (ground (arith, at))
                    ∙ stored_hit (record pr { vmm = vmm }) pr (a - pr.addr) v lv bytes)
            | inr apart ↦
                let ji : j ≡ i = ground (arith, same) in
                let low : pr.addr % 4 ≡ 0 = r.aligned in
                let at_a = in_lem pr a r (found_in map a i e) al in
                let at_b = in_lem pr b r (found_in map b i (ej ∙ ap some ji)) ab in
                let off_a : (a - pr.addr) % 4 ≡ 0 = omega (arith, at_a.0) in
                let off_b : (b - pr.addr) % 4 ≡ 0 = omega (arith, at_b.0) in
                let apart' : (a - pr.addr == b - pr.addr) ≡ false =
                  ground (arith, apart, at_a.0, at_b.0) in
                rw (apart, ej, same)
                  (stored_miss (record pr { vmm = vmm }) pr (a - pr.addr) v (b - pr.addr) off_a
                      off_b apart' bytes
                    ∙ (sym (word_in-ram map i b ram) ∙ ap (λ t. word_in map (some t) b) (sym ji)))
          ]
        ]
      ]

  -- In a map whose RAM ranges are valid, each over a VMM that holds its pages, writing a 32-bit value
  -- to an aligned address of a RAM range gives a valid map in which that address holds the value, and
  -- every other aligned address of the 32-bit space the word that it held before, also where pages
  -- of the RAM were loaded or evicted.
  pub phys_write_lem :
      (map : PhysMemoryMap lib W) (a v i : ℕ)
      → AllRam map
      → a < 2 ^ 32
      → a % 4 ≡ 0
      → v < 2 ^ 32
      → get_phys_mem_range map a ≡ some i
      → (map.phys_mem_range i).is_ram ≡ true
      → (map' : PhysMemoryMap lib W) × (phys_write map a v 4 ≡ some map')
        × AllRam map'
        × ((b : ℕ) → b < 2 ^ 32 → b % 4 ≡ 0 → word map' b ≡ (if a == b then v else word map b))
  phys_write_lem map a v i all lt al lv e ram =
      let pr = map.phys_mem_range i in
      let r = all i ram in
      let inside = in_lem pr a r (found_in map a i e) al in
      let (vmm, ran, r', bytes) = ram_write_lem map i (a - pr.addr) v r (omega arith) in
      (
        with_vmm map i vmm,
        phys_write-ram map a v i e ram r al lt ∙ ran,
        with_vmm-AllRam map i vmm all r',
        λ b lb ab. vmm_word map i vmm b ram ∙ written_word map a v i vmm b r e ram lv al ab bytes,
      )

  pub write_lem :
      (map : PhysMemoryMap lib W) (a v : ℕ)
      → AllRam map
      → a < 2 ^ 32
      → a % 4 ≡ 0
      → v < 2 ^ 32
      → word map a ≢ 0
      → (map' : PhysMemoryMap lib W) × (phys_write map a v 4 ≡ some map')
        × AllRam map'
        × ((b : ℕ) → b < 2 ^ 32 → b % 4 ≡ 0 → word map' b ≡ (if a == b then v else word map b))
  write_lem map a v all lt al lv ne =
      let (i, e, ram) = ram_at map a ne in phys_write_lem map a v i all lt al lv e ram

-- The memory of the machine as the translation of addresses uses it.
abbrev pub machine_memory : Libraries → Type 0 → PhysMemory
machine_memory lib W = record {
  Memory = PhysMemoryMap lib W;
  IsValid = AllRam;
  word = word;
  phys_read_u32 = λ (map : PhysMemoryMap lib W) (a : ℕ). phys_read map a 4;
  phys_write_u32 = λ (map : PhysMemoryMap lib W) (a v : ℕ). phys_write map a v 4;
  read_word = phys_read_lem;
  write_word = write_lem;
}
