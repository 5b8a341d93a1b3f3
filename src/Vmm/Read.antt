-- ===== src/Vmm/Read.antt =====
-- `vmm_read`: it ends, delivers the bytes of the memory, across pages, and changes none.
use esp32_tinyemu.Prelude.{
  ℕ, zero, suc, ◌+◌, ◌-◌, ◌*◌, ◌/◌, ◌%◌, ◌≤◌, ◌<◌, ◌≡◌, ◌≢◌, ◌==◌, ◌&&◌, if◌then◌else◌, arith, ltb,
  leb, Bool-cases, inl, inr, size_add, size_sub, Bytes, memcpy, min, refl, some, ◌∙◌,
}
use native.Mathlib.Nat.{div-add-mod', mod-lt}
use esp32_tinyemu.LruCache.NodeList.{Libraries}
use esp32_tinyemu.Vmm.{Vmm, get_page, vmm_read_internal, read_loop, vmm_read}
use esp32_tinyemu.Vmm.Inv.{IsValid, mem_byte}
use esp32_tinyemu.Vmm.GetPage.{HasPage, get_page-HasPage}
use esp32_tinyemu.Vmm.Range.{HoldsPages, division_bound, same_page}

module _ (lib : Libraries) (size blocks count : ℕ) where
  -- What an access leaves besides its result: a valid VMM over a file that is not shorter.
  pub record Follows (v v' : Vmm lib) : Type 0 where
    pub valid : IsValid lib size blocks v'
    pub holds : HoldsPages size count v'
    pub number_of_pages : v'.number_of_pages ≡ v.number_of_pages

  -- The same memory, byte for byte.
  abbrev pub SameMemory : Vmm lib → Vmm lib → Type 0
  SameMemory v v' = (a : ℕ) → mem_byte lib size v' a ≡ mem_byte lib size v a

  -- Where `get_page` puts the pointer into its page, and how much of the page lies behind.
  pub place :
      {v : Vmm lib} (addr : ℕ)
      → IsValid lib size blocks v
      → HoldsPages size count v
      → addr < count * size
      → let (p, v') = get_page lib v addr in
        (HasPage lib size blocks v (addr / size) p v')
        × (size_sub addr (v'.backing.pages p).page_address ≡ addr % size)
        × (size_sub v'.page_size (addr % size) ≡ size - addr % size)
        × (addr % size < size)
        × ((v'.backing.pages p).page_address + addr % size ≡ addr)
  place {v} addr w h lt =
      let g = get_page-HasPage lib addr w (division_bound addr h w.size_pos lt) in
      let registered = g.valid.backed.registered (addr / size) in
      let split = div-add-mod' addr size in
      let small = mod-lt addr w.size_pos in
      (
        g,
        ground (arith, registered, split, g.found, g.not_null, h.addressable),
        ground (arith, small, g.valid.page_size, w.size_u16),
        small,
        ground (arith, registered, split, g.found, g.not_null),
      )

  -- One round of the loop: it delivers the bytes of the memory up to the end of the page or of what
  -- is asked for, at least one byte, and leaves the rest of the target alone.
  read_internal_lem :
      {v : Vmm lib} (addr : ℕ) (target : Bytes) (target_offset len i : ℕ)
      → IsValid lib size blocks v
      → HoldsPages size count v
      → addr < count * size
      → let (n, target', v') = vmm_read_internal lib v addr target target_offset len in
        (n ≡ min len (size - addr % size))
        × (target' i ≡ (
            if leb target_offset i && ltb i (target_offset + n)
            then mem_byte lib size v (addr + (i - target_offset))
            else target i))
        × Follows v v'
        × SameMemory v v'
  unfolding vmm_read_internal memcpy
  read_internal_lem {v} addr target target_offset len i w h lt =
      let pl = place addr w h lt in
      let g = pl.0 in
      (
        rw (pl.1, pl.2),
        rw (pl.1, pl.2) (byte pl),
        record {
          valid = g.valid;
          holds = record {
            addressable = h.addressable;
            stored = ground (arith, g.grows, h.stored);
          };
          number_of_pages = g.number_of_pages;
        },
        λ a. g.view (a / size) (a % size) (mod-lt a w.size_pos),
      )
    where
      byte :
          let (p, v') = get_page lib v addr in
          (HasPage lib size blocks v (addr / size) p v')
            × (size_sub addr (v'.backing.pages p).page_address ≡ addr % size)
            × (size_sub v'.page_size (addr % size) ≡ size - addr % size)
            × (addr % size < size)
            × ((v'.backing.pages p).page_address + addr % size ≡ addr)
          → let (p, v') = get_page lib v addr in
            let n = min len (size - addr % size) in
            memcpy target target_offset (v'.backing.pages p).page_cache (addr % size) n i ≡ (
              if leb target_offset i && ltb i (target_offset + n)
              then mem_byte lib size v (addr + (i - target_offset))
              else target i)
      byte (g, _, _, small, _) = ground (
        arith,
        small,
        same_page addr (i - target_offset) size w.size_pos,
        g.view (addr / size) (addr % size + (i - target_offset)),
        g.found,
        g.not_null,
      )

  -- A read of `remain` bytes from `addr + offset` on to the place `offset` of the target.
  pub record Reads (v : Vmm lib) (addr : ℕ) (target : Bytes) (offset remain : ℕ) (target' : Bytes)
      (v' : Vmm lib) : Type 0 where
    pub follows : Follows v v'
    pub memory : SameMemory v v'
    pub delivered :
        (i : ℕ)
        → target' i ≡ (
            if leb offset i && ltb i (offset + remain)
            then mem_byte lib size v (addr + i)
            else target i)

  read_nothing :
      {v : Vmm lib} (addr : ℕ) (target : Bytes) (offset remain : ℕ)
      → IsValid lib size blocks v
      → HoldsPages size count v
      → remain ≡ 0
      → Reads v addr target offset remain target v
  read_nothing addr target offset remain w h e = record {
    follows = record { valid = w; holds = h; number_of_pages = refl };
    memory = λ a. refl;
    delivered = λ i. ground (arith, e);
  }

  -- One round before the rest of the loop.
  read_more :
      {v : Vmm lib} (addr : ℕ) (target : Bytes) (offset remain : ℕ) {target' : Bytes} {v' : Vmm lib}
      → IsValid lib size blocks v
      → HoldsPages size count v
      → addr + offset + remain ≤ count * size
      → remain ≢ 0
      → let (n, t₁, v₁) = vmm_read_internal lib v (addr + offset) target offset remain in
        Reads v₁ addr t₁ (offset + n) (remain - n) target' v'
        → Reads v addr target offset remain target' v'
  read_more {v} addr target offset remain w h fits ne r = record {
    follows = record {
      valid = r.follows.valid;
      holds = r.follows.holds;
      number_of_pages = r.follows.number_of_pages ∙ (first 0).2.number_of_pages;
    };
    memory = λ a. r.memory a ∙ (first 0).3 a;
    delivered = λ i. ground (arith, ne, r.delivered i, first i, (first i).3 (addr + i));
  }
    where
      first :
          (i : ℕ)
          → let (n, target₁, v₁) = vmm_read_internal lib v (addr + offset) target offset remain in
            (n ≡ min remain (size - (addr + offset) % size))
            × (target₁ i ≡ (
                if leb offset i && ltb i (offset + n)
                then mem_byte lib size v (addr + offset + (i - offset))
                else target i))
            × Follows v v₁
            × SameMemory v v₁
      first i = read_internal_lem (addr + offset) target offset remain i w h (omega arith)

  read_loop_lem :
      (fuel : ℕ) {v : Vmm lib} (addr : ℕ) (target : Bytes) (offset remain : ℕ)
      → IsValid lib size blocks v
      → HoldsPages size count v
      → addr + offset + remain ≤ count * size
      → remain ≤ fuel
      → (target' : Bytes) × (v' : Vmm lib) × (read_loop lib fuel v addr target offset remain
          ≡ some (target', v'))
        × Reads v addr target offset remain target' v'
  unfolding read_loop
  read_loop_lem zero {v} addr target offset remain w h fits enough =
      (target, v, ground arith, read_nothing addr target offset remain w h (omega arith))
  read_loop_lem (suc fuel) {v} addr target offset remain w h fits enough =
      elim (Bool-cases (remain == 0)) [
        | inl e ↦ (target, v, rw e, read_nothing addr target offset remain w h (ground (arith, e)))
        | inr e ↦
            let round = vmm_read_internal lib v (addr + offset) target offset remain in
            let inside : addr + offset < count * size = ground (arith, e) in
            let first = read_internal_lem (addr + offset) target offset remain 0 w h inside in
            let small = mod-lt (addr + offset) w.size_pos in
            let at : size_add addr offset ≡ addr + offset = ground (arith, inside, h.addressable) in
            let next : size_add offset round.0 ≡ offset + round.0 =
              ground (arith, e, first.0, fits, h.addressable, small) in
            let left : size_sub remain round.0 ≡ remain - round.0 =
              ground (arith, e, first.0, fits, h.addressable, small) in
            let (target', v', ran, reads) =
              read_loop_lem fuel {v = round.2} addr round.1 (offset + round.0) (remain - round.0)
                first.2.valid first.2.holds (ground (arith, first.0))
                (ground (arith, e, first.0, small)) in
            (
              target',
              v',
              rw (e, at, next, left) ran,
              read_more addr target offset remain w h fits (ground (arith, e)) reads,
            )
      ]

  -- A read of `len` bytes of a valid VMM, within the pages of the memory, ends, delivers exactly these bytes and
  -- leaves the rest of the target alone; it keeps the invariant and changes no byte of the memory.
  pub vmm_read_lem :
      {v : Vmm lib} (addr : ℕ) (target : Bytes) (len : ℕ)
      → IsValid lib size blocks v
      → HoldsPages size count v
      → addr + len ≤ count * size
      → (target' : Bytes) × (v' : Vmm lib) × (vmm_read lib v addr target len ≡ some (target', v'))
        × Reads v addr target 0 len target' v'
  unfolding vmm_read
  vmm_read_lem addr target len w h fits =
      read_loop_lem len addr target 0 len w h (omega arith) (omega arith)
