-- ===== src/Vmm/Write.antt =====
-- `vmm_write`: it ends, and changes exactly the bytes of the memory that it is given, across pages.
use esp32_tinyemu.Prelude.{
  ℕ, zero, suc, ◌+◌, ◌-◌, ◌*◌, ◌/◌, ◌%◌, ◌≤◌, ◌<◌, ◌≡◌, ◌≢◌, true, ◌==◌, ◌&&◌, if◌then◌else◌, arith,
  ltb, leb, Bool-cases, inl, inr, size_add, size_sub, Bytes, memcpy, min, refl, some, ◌∙◌, ap,
}
use native.Mathlib.Nat.{div-add-mod', mod-lt}
use esp32_tinyemu.LruCache.NodeList.{Libraries}
use esp32_tinyemu.Vmm.{Vmm, get_page, vmm_write_internal, write_loop, vmm_write, write_page}
use esp32_tinyemu.Vmm.Inv.{IsValid, resident, page_view, mem_byte}
use esp32_tinyemu.Vmm.GetPage.{HasPage}
use esp32_tinyemu.Vmm.Range.{HoldsPages, same_page}
use esp32_tinyemu.Vmm.Read.{Follows, place}

module _ (lib : Libraries) (size blocks count : ℕ) where
  -- The VMM with other bytes in a resident page, which is dirty from then on.
  abbrev poke : Vmm lib → ℕ → Bytes → Vmm lib
  poke v p bytes =
      let b = v.backing in
      record v {
        backing = record b {
          pages = write_page b.pages p (record (b.pages p) { page_cache = bytes; dirty = true });
        };
      }

  poke-IsValid :
      {v : Vmm lib} {p : ℕ} (n : ℕ) (bytes : Bytes)
      → IsValid lib size blocks v
      → resident lib v n ≡ p
      → p ≢ 0
      → IsValid lib size blocks (poke v p bytes)
  unfolding write_page
  poke-IsValid {v} {p} n bytes w at ne = record {
    size_pos = w.size_pos;
    size_u16 = w.size_u16;
    page_size = w.page_size;
    lru_valid = w.lru_valid;
    lines = w.lines;
    next_pos = w.next_pos;
    coherent = w.coherent;
    number_u32 = w.number_u32;
    capacity = w.capacity;
    pages = w.pages;
    backed = record {
      store_valid = w.backed.store_valid;
      registered = λ j nj. ground (arith, nj, w.backed.registered j);
      clean = λ j off nj cl lt. ground (arith, nj, cl, lt, w.backed.clean j off);
    };
  }

  poke_view :
      {v : Vmm lib} {p : ℕ} (n : ℕ) (bytes : Bytes) (j off : ℕ)
      → IsValid lib size blocks v
      → resident lib v n ≡ p
      → p ≢ 0
      → page_view lib size (poke v p bytes) j off
        ≡ (if n == j then bytes off else page_view lib size v j off)
  unfolding write_page
  poke_view {v} {p} n bytes j off w at ne =
      ground (arith, ne, at, w.backed.registered n, w.backed.registered j)

  -- One round of the loop: it sets the bytes up to the end of the page or of what is given, at
  -- least one byte, and no other byte of the memory.
  write_internal_lem :
      {v : Vmm lib} (addr : ℕ) (source : Bytes) (source_offset len a : ℕ)
      → IsValid lib size blocks v
      → HoldsPages size count v
      → addr < count * size
      → let (n, v') = vmm_write_internal lib v addr source source_offset len in
        (n ≡ min len (size - addr % size))
        × (mem_byte lib size v' a ≡ (
            if leb addr a && ltb a (addr + n)
            then source (source_offset + (a - addr))
            else mem_byte lib size v a))
        × Follows lib size blocks count v v'
  unfolding vmm_write_internal memcpy
  write_internal_lem {v} addr source source_offset len a w h lt =
      let pl = place lib size blocks count addr w h lt in
      let g = pl.0 in
      (
        rw (pl.1, pl.2),
        rw (pl.1, pl.2) (byte pl),
        rw (pl.1, pl.2)
            (record {
              valid =
                  poke-IsValid (addr / size) (memcpy page (addr % size) source source_offset n)
                    g.valid g.found g.not_null;
              holds = record {
                addressable = h.addressable;
                stored = ground (arith, g.grows, h.stored);
              };
              number_of_pages = g.number_of_pages;
            }),
      )
    where
      page : Bytes
      page = ((get_page lib v addr).1.backing.pages (get_page lib v addr).0).page_cache

      n : ℕ
      n = min len (size - addr % size)

      bytes :
          (i : ℕ)
          → memcpy page (addr % size) source source_offset n i ≡ (
              if leb (addr % size) i && ltb i (addr % size + n)
              then source (source_offset + (i - addr % size))
              else page i)
      bytes i = refl

      -- Two addresses of one page differ as their offsets do.
      in_page : (b : ℕ) → (addr / size ≡ b / size) → b + addr % size ≡ addr + b % size
      in_page b e =
          omega (arith, div-add-mod' addr size, div-add-mod' b size, ap (λ (t : ℕ). t * size) e)

      byte :
          let (p, v') = get_page lib v addr in
          (HasPage lib size blocks v (addr / size) p v')
            × (size_sub addr (v'.backing.pages p).page_address ≡ addr % size)
            × (size_sub v'.page_size (addr % size) ≡ size - addr % size)
            × (addr % size < size)
            × ((v'.backing.pages p).page_address + addr % size ≡ addr)
          → let (p, v') = get_page lib v addr in
            let bytes = memcpy page (addr % size) source source_offset n in
            mem_byte lib size (poke v' p bytes) a ≡ (
              if leb addr a && ltb a (addr + n)
              then source (source_offset + (a - addr))
              else mem_byte lib size v a)
      byte (g, _, _, small, _) = ground (
        arith,
        small,
        poke_view (addr / size) (memcpy page (addr % size) source source_offset n) (a / size)
            (a % size) g.valid g.found g.not_null,
        bytes (a % size),
        g.found,
        g.not_null,
        g.view (a / size) (a % size) (mod-lt a w.size_pos),
        in_page a,
        same_page addr (a - addr) size w.size_pos,
      )

  -- A write of `remain` bytes of the source, from its place `offset` on, to `addr + offset`.
  pub record Writes (v : Vmm lib) (addr : ℕ) (source : Bytes) (offset remain : ℕ) (v' : Vmm lib)
      : Type 0 where
    pub follows : Follows lib size blocks count v v'
    pub stored :
        (a : ℕ)
        → mem_byte lib size v' a ≡ (
            if leb (addr + offset) a && ltb a (addr + offset + remain)
            then source (a - addr)
            else mem_byte lib size v a)

  write_nothing :
      {v : Vmm lib} (addr : ℕ) (source : Bytes) (offset remain : ℕ)
      → IsValid lib size blocks v
      → HoldsPages size count v
      → remain ≡ 0
      → Writes v addr source offset remain v
  write_nothing addr source offset remain w h e = record {
    follows = record { valid = w; holds = h; number_of_pages = refl };
    stored = λ a. ground (arith, e);
  }

  -- One round before the rest of the loop.
  write_more :
      {v : Vmm lib} (addr : ℕ) (source : Bytes) (offset remain : ℕ) {v' : Vmm lib}
      → IsValid lib size blocks v
      → HoldsPages size count v
      → addr + offset + remain ≤ count * size
      → remain ≢ 0
      → let (n, v₁) = vmm_write_internal lib v (addr + offset) source offset remain in
        Writes v₁ addr source (offset + n) (remain - n) v' → Writes v addr source offset remain v'
  write_more {v} addr source offset remain w h fits ne r = record {
    follows = record {
      valid = r.follows.valid;
      holds = r.follows.holds;
      number_of_pages = r.follows.number_of_pages ∙ (first 0).2.number_of_pages;
    };
    stored = λ a. ground (arith, ne, r.stored a, first a);
  }
    where
      first :
          (a : ℕ)
          → let (n, v₁) = vmm_write_internal lib v (addr + offset) source offset remain in
            (n ≡ min remain (size - (addr + offset) % size))
            × (mem_byte lib size v₁ a ≡ (
                if leb (addr + offset) a && ltb a (addr + offset + n)
                then source (offset + (a - (addr + offset)))
                else mem_byte lib size v a))
            × Follows lib size blocks count v v₁
      first a = write_internal_lem (addr + offset) source offset remain a w h (omega arith)

  write_loop_lem :
      (fuel : ℕ) {v : Vmm lib} (addr : ℕ) (source : Bytes) (offset remain : ℕ)
      → IsValid lib size blocks v
      → HoldsPages size count v
      → addr + offset + remain ≤ count * size
      → remain ≤ fuel
      → (v' : Vmm lib) × (write_loop lib fuel v addr source offset remain ≡ some v')
        × Writes v addr source offset remain v'
  unfolding write_loop
  write_loop_lem zero {v} addr source offset remain w h fits enough =
      (v, ground arith, write_nothing addr source offset remain w h (omega arith))
  write_loop_lem (suc fuel) {v} addr source offset remain w h fits enough =
      elim (Bool-cases (remain == 0)) [
        | inl e ↦ (v, rw e, write_nothing addr source offset remain w h (ground (arith, e)))
        | inr e ↦
            let round = vmm_write_internal lib v (addr + offset) source offset remain in
            let inside : addr + offset < count * size = ground (arith, e) in
            let first = write_internal_lem (addr + offset) source offset remain 0 w h inside in
            let small = mod-lt (addr + offset) w.size_pos in
            let at : size_add addr offset ≡ addr + offset = ground (arith, inside, h.addressable) in
            let next : size_add offset round.0 ≡ offset + round.0 =
              ground (arith, e, first.0, fits, h.addressable, small) in
            let left : size_sub remain round.0 ≡ remain - round.0 =
              ground (arith, e, first.0, fits, h.addressable, small) in
            let (v', ran, writes) =
              write_loop_lem fuel {v = round.1} addr source (offset + round.0) (remain - round.0)
                first.2.valid first.2.holds (ground (arith, first.0))
                (ground (arith, e, first.0, small)) in
            (
              v',
              rw (e, at, next, left) ran,
              write_more addr source offset remain w h fits (ground (arith, e)) writes,
            )
      ]

  -- A write of `len` bytes to a valid VMM, within the pages of the memory, ends, makes exactly these bytes those of
  -- the source, changes no other byte of the memory and keeps the invariant.
  pub vmm_write_lem :
      {v : Vmm lib} (addr : ℕ) (source : Bytes) (len : ℕ)
      → IsValid lib size blocks v
      → HoldsPages size count v
      → addr + len ≤ count * size
      → (v' : Vmm lib) × (vmm_write lib v addr source len ≡ some v') × Writes v addr source 0 len v'
  unfolding vmm_write
  vmm_write_lem addr source len w h fits =
      write_loop_lem len addr source 0 len w h (omega arith) (omega arith)
