-- ===== src/Iomem/Words.antt =====
-- Reads and writes of integers in the RAM of the machine, over the VMMs of its ranges: the memory of
-- words that the translation of addresses relies on.
use esp32_tinyemu.Prelude.{
  ℕ, ◌+◌, ◌-◌, ◌*◌, ◌%◌, ◌^◌, ◌≤◌, ◌<◌, ◌≡◌, inl, inr, true, false, ◌==◌, if◌then◌else◌, Option,
  none, some, arith, refl, ap, sym, ◌∙◌, size_sub, Bool-cases, subst,
}
use esp32_tinyemu.LruCache.NodeList.{Libraries}
use esp32_tinyemu.Vmm.{Vmm}
use esp32_tinyemu.Vmm.Inv.{IsValid, mem_byte}
use esp32_tinyemu.Vmm.Range.{HoldsPages}
use esp32_tinyemu.Iomem.{PhysMemoryRange, PhysMemoryMap, in_range, get_phys_mem_range, put_range}
use esp32_tinyemu.Iomem.Access.{load_bytes, store_bytes, ram_read, ram_write, phys_read, phys_write}
use esp32_tinyemu.Iomem.Find.{find-put, get_phys_mem_range_lem, IsFirst}

-- What is stored is read back.
pub load-store : (v : ℕ) → v < 2 ^ 32 → load_bytes 4 (store_bytes v) ≡ v
unfolding load_bytes store_bytes
load-store v lt = omega arith

pub self : (i : ℕ) → (i == i) ≡ true
self i = ground arith

module _ {lib : Libraries} {W : Type 0} where
  -- A range of RAM: a valid VMM that holds its bytes, aligned, within the address space.
  pub record IsRam (pr : PhysMemoryRange lib W) : Type 0 where
    pub page_size : ℕ
    pub blocks : ℕ
    pub count : ℕ
    pub valid : IsValid lib page_size blocks pr.vmm
    pub holds : HoldsPages page_size count pr.vmm
    pub fits : pr.size ≤ count * page_size
    pub aligned : pr.addr % 4 ≡ 0
    pub whole : pr.size % 4 ≡ 0
    pub addressable : pr.addr + pr.size ≤ 2 ^ 32

  abbrev pub AllRam : PhysMemoryMap lib W → Type 0
  AllRam map = (i : ℕ) → (map.phys_mem_range i).is_ram ≡ true → IsRam (map.phys_mem_range i)

  -- The byte at an offset of a range.
  abbrev pub ram_byte : PhysMemoryRange lib W → ℕ → ℕ
  ram_byte pr a = mem_byte lib pr.vmm.page_size pr.vmm a

  -- The integer of four bytes at an offset.
  abbrev pub ram_word : PhysMemoryRange lib W → ℕ → ℕ
  ram_word pr a = load_bytes 4 (λ k. ram_byte pr (a + k))

  -- What a read of an aligned word sees: 0 outside of the RAM.
  abbrev pub word_in : PhysMemoryMap lib W → Option ℕ → ℕ → ℕ
  word_in map none a = 0
  word_in map (some i) a =
      let pr = map.phys_mem_range i in if pr.is_ram then ram_word pr (a - pr.addr) else 0

  abbrev pub word : PhysMemoryMap lib W → ℕ → ℕ
  word map a = word_in map (get_phys_mem_range map a) a

  -- An aligned address of a range lies with its word in the range.
  pub in_lem :
      (pr : PhysMemoryRange lib W) (a : ℕ)
      → IsRam pr
      → in_range pr a ≡ true
      → a % 4 ≡ 0
      → (pr.addr ≤ a) × (a + 4 ≤ pr.addr + pr.size)
  unfolding in_range
  in_lem pr a r e al =
      let fits : pr.addr + pr.size ≤ 2 ^ 32 = r.addressable in
      let low : pr.addr % 4 ≡ 0 = r.aligned in let whole : pr.size % 4 ≡ 0 = r.whole in ground arith

  pub offset_lem :
      (pr : PhysMemoryRange lib W) (a : ℕ)
      → IsRam pr
      → in_range pr a ≡ true
      → a % 4 ≡ 0
      → a < 2 ^ 32
      → size_sub a (pr.addr % 2 ^ 32) ≡ a - pr.addr
  offset_lem pr a r e al lt =
      let fits : pr.addr + pr.size ≤ 2 ^ 32 = r.addressable in
      omega (arith, (in_lem pr a r e al).0, (in_lem pr a r e al).1)

  pub found_in :
      (map : PhysMemoryMap lib W) (a i : ℕ)
      → get_phys_mem_range map a ≡ some i
      → in_range (map.phys_mem_range i) a ≡ true
  found_in map a i e =
      (subst (λ o. IsFirst map.phys_mem_range 0 map.n_phys_mem_range o a 0) e
        (get_phys_mem_range_lem map a 0)).2

  pub word_in-ram :
      (map : PhysMemoryMap lib W) (i b : ℕ)
      → (map.phys_mem_range i).is_ram ≡ true
      → word_in map (some i) b ≡ ram_word (map.phys_mem_range i) (b - (map.phys_mem_range i).addr)
  word_in-ram map i b ram = rw ram refl

  pub word-ram :
      (map : PhysMemoryMap lib W) (a i : ℕ)
      → get_phys_mem_range map a ≡ some i
      → (map.phys_mem_range i).is_ram ≡ true
      → ram_word (map.phys_mem_range i) (a - (map.phys_mem_range i).addr) ≡ word map a
  word-ram map a i e ram = sym (ap (λ o. word_in map o a) e ∙ word_in-ram map i a ram)

  pub phys_read-ram :
      (map : PhysMemoryMap lib W) (a i : ℕ)
      → get_phys_mem_range map a ≡ some i
      → (map.phys_mem_range i).is_ram ≡ true
      → IsRam (map.phys_mem_range i)
      → a % 4 ≡ 0
      → a < 2 ^ 32
      → phys_read map a 4 ≡ ram_read map i (a - (map.phys_mem_range i).addr) 4
  unfolding phys_read
  phys_read-ram map a i e ram r al lt =
      rw (phys_read, e, ram)
        (ap (λ o. ram_read map i o 4)
          (offset_lem (map.phys_mem_range i) a r (found_in map a i e) al lt))

  pub phys_write-ram :
      (map : PhysMemoryMap lib W) (a v i : ℕ)
      → get_phys_mem_range map a ≡ some i
      → (map.phys_mem_range i).is_ram ≡ true
      → IsRam (map.phys_mem_range i)
      → a % 4 ≡ 0
      → a < 2 ^ 32
      → phys_write map a v 4 ≡ ram_write map i (a - (map.phys_mem_range i).addr) v 4
  unfolding phys_write
  phys_write-ram map a v i e ram r al lt =
      rw (phys_write, e, ram)
        (ap (λ o. ram_write map i o v 4)
          (offset_lem (map.phys_mem_range i) a r (found_in map a i e) al lt))

  -- The map after the VMM of range `i` has changed.
  abbrev pub with_vmm : PhysMemoryMap lib W → ℕ → Vmm lib → PhysMemoryMap lib W
  with_vmm map i vmm = put_range map i (record (map.phys_mem_range i) { vmm = vmm })

  pub with_vmm_word :
      (map : PhysMemoryMap lib W) (i : ℕ) (vmm : Vmm lib) (b : ℕ)
      → word (with_vmm map i vmm) b ≡ word_in (with_vmm map i vmm) (get_phys_mem_range map b) b
  with_vmm_word map i vmm b =
      ap (λ o. word_in (with_vmm map i vmm) o b)
        (find-put map i (record (map.phys_mem_range i) { vmm = vmm }) b refl refl)

  pub with_vmm_other :
      (map : PhysMemoryMap lib W) (i : ℕ) (vmm : Vmm lib) (j b : ℕ)
      → (i == j) ≡ false
      → word_in (with_vmm map i vmm) (some j) b ≡ word_in map (some j) b
  unfolding put_range
  with_vmm_other map i vmm j b e = rw e refl

  pub with_vmm_same :
      (map : PhysMemoryMap lib W) (i : ℕ) (vmm : Vmm lib) (b : ℕ)
      → (map.phys_mem_range i).is_ram ≡ true
      → word_in (with_vmm map i vmm) (some i) b
        ≡ ram_word (record (map.phys_mem_range i) { vmm = vmm }) (b - (map.phys_mem_range i).addr)
  unfolding put_range
  with_vmm_same map i vmm b e = rw (self i, e) refl

  pub with_vmm-AllRam :
      (map : PhysMemoryMap lib W) (i : ℕ) (vmm : Vmm lib)
      → AllRam map
      → IsRam (record (map.phys_mem_range i) { vmm = vmm })
      → AllRam (with_vmm map i vmm)
  unfolding put_range
  with_vmm-AllRam map i vmm all r j e = elim (Bool-cases (i == j)) [
    | inl s ↦ rw s r
    | inr s ↦ rw s (all j (subst (λ (pr : PhysMemoryRange lib W). pr.is_ram ≡ true) (other s) e))
  ]
    where
      other : (i == j) ≡ false → (with_vmm map i vmm).phys_mem_range j ≡ map.phys_mem_range j
      other s = rw s refl

  -- The word at `b` then, in the range where it is found.
  abbrev pub word_after : PhysMemoryMap lib W → ℕ → Vmm lib → Option ℕ → ℕ → ℕ
  word_after map i vmm none b = 0
  word_after map i vmm (some j) b =
      let pr = map.phys_mem_range i in
      if i == j then ram_word (record pr { vmm = vmm }) (b - pr.addr) else word_in map (some j) b

  pub vmm_word :
      (map : PhysMemoryMap lib W) (i : ℕ) (vmm : Vmm lib) (b : ℕ)
      → (map.phys_mem_range i).is_ram ≡ true
      → word (with_vmm map i vmm) b ≡ word_after map i vmm (get_phys_mem_range map b) b
  vmm_word map i vmm b ram = with_vmm_word map i vmm b ∙ step (get_phys_mem_range map b)
    where
      step : (o : Option ℕ) → word_in (with_vmm map i vmm) o b ≡ word_after map i vmm o b
      step none = refl
      step (some j) = elim (Bool-cases (i == j)) [
        | inr e ↦ with_vmm_other map i vmm j b e ∙ rw e refl
        | inl e ↦
            ap (λ t. word_in (with_vmm map i vmm) (some t) b) (ground (arith, e))
            ∙ (with_vmm_same map i vmm b ram ∙ rw e refl)
      ]

  pub ram_word-same :
      (pr : PhysMemoryRange lib W) (vmm : Vmm lib) (o : ℕ)
      → ((a : ℕ) → ram_byte (record pr { vmm = vmm }) a ≡ ram_byte pr a)
      → ram_word (record pr { vmm = vmm }) o ≡ ram_word pr o
  unfolding load_bytes
  ram_word-same pr vmm o same = rw (same (o + 0), same (o + 1), same (o + 2), same (o + 3)) refl

  pub kept_word :
      (map : PhysMemoryMap lib W) (i : ℕ) (vmm : Vmm lib) (b : ℕ)
      → (map.phys_mem_range i).is_ram ≡ true
      → ((o : ℕ)
          → ram_word (record (map.phys_mem_range i) { vmm = vmm }) o
            ≡ ram_word (map.phys_mem_range i) o)
      → word_after map i vmm (get_phys_mem_range map b) b ≡ word map b
  kept_word map i vmm b ram same = step (get_phys_mem_range map b)
    where
      step : (o : Option ℕ) → word_after map i vmm o b ≡ word_in map o b
      step none = refl
      step (some j) = elim (Bool-cases (i == j)) [
        | inr e ↦ rw e refl
        | inl e ↦
            rw (e, same (b - (map.phys_mem_range i).addr))
              (sym (word_in-ram map i b ram) ∙ ap (λ t. word_in map (some t) b) (ground (arith, e)))
      ]
