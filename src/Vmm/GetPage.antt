-- ===== src/Vmm/GetPage.antt =====
-- `get_page`: the page of an address becomes resident, and no byte of the memory changes.
use esp32_tinyemu.Prelude.{
  ℕ, ◌+◌, ◌*◌, ◌/◌, ◌%◌, ◌≤◌, ◌<◌, ◌≡◌, ◌≢◌, ◌==◌, if◌then◌else◌, arith, max, Bool-cases, inl, inr,
  length, size_mod, size_mul, Bytes, ap, ◌∙◌,
}
use native.Mathlib.Nat.{mod-lt}
use esp32_tinyemu.DirectCache.Laws.{get-set, size-set}
use esp32_tinyemu.LruCache.NodeList.{Libraries}
use esp32_tinyemu.LruCache.{lru_cache_add}
use esp32_tinyemu.LruCache.Inv.{nodes, lookup}
use esp32_tinyemu.LruCache.Add.{add-IsValid, lookup-add, add-length}
use esp32_tinyemu.Vmm.Store.{load_page, backing_store_read}
use esp32_tinyemu.Vmm.BackingStore.{
  store_byte, backing_store_read_lem, backing_store_read-IsValid, backing_store_read_rest,
}
use esp32_tinyemu.Vmm.{Vmm, make_room, find_empty_tlb, new_vmtable, fault, get_tlb, get_page}
use esp32_tinyemu.Vmm.Inv.{IsValid, resident, page_view, mem_byte}
use esp32_tinyemu.Vmm.Tlb.{get_tlb_lem, get_tlb-IsValid}
use esp32_tinyemu.Vmm.Evict.{MadeRoom, make_room-MadeRoom}

-- Page `n` lies within the address space and within the file.
abbrev pub IsCovered : {lib : Libraries} → ℕ → Vmm lib → ℕ → Type 0
IsCovered size v n = (n * size + size ≤ size_mod) × (n * size + size ≤ v.backing.backing_store.size)

module _ (lib : Libraries) where
  -- What `get_page` leaves: a valid VMM with the same memory, in which `p` is the resident page `n`.
  pub record HasPage (size blocks : ℕ) (v : Vmm lib) (n p : ℕ) (v' : Vmm lib) : Type 0 where
    pub valid : IsValid lib size blocks v'
    pub view : (j off : ℕ) → off < size → page_view lib size v' j off ≡ page_view lib size v j off
    pub found : resident lib v' n ≡ p
    pub not_null : p ≢ 0
    pub grows : v.backing.backing_store.size ≤ v'.backing.backing_store.size
    pub number_of_pages : v'.number_of_pages ≡ v.number_of_pages

  module _ {v : Vmm lib} {size blocks : ℕ} (w : IsValid lib size blocks v) (n : ℕ)
      (absent : resident lib v n ≡ 0) (covered : IsCovered size v n) where
    room : MadeRoom lib w (make_room lib v)
    room = make_room-MadeRoom lib w

    fault-HasPage : let (p, v') = fault lib v n (n * size) in HasPage size blocks v n p v'
    unfolding fault find_empty_tlb new_vmtable load_page
    fault-HasPage = record {
      valid = record {
        size_pos = w.size_pos;
        size_u16 = w.size_u16;
        page_size = room.valid.page_size;
        lru_valid =
            add-IsValid lib n p r.lru_valid (room.gone n absent) (ground (arith, r.next_pos));
        lines = ground (arith, r.lines, size-set v₁.direct_cache n p);
        next_pos = ground (arith, r.next_pos);
        coherent = λ j ne. ground (arith, ne, get-set v₁.direct_cache n p j, item j, r.coherent j);
        number_u32 = r.number_u32;
        capacity = ground (arith, room.room, add-length lib n p r.lru_valid);
        pages = ground (arith, r.pages, add-length lib n p r.lru_valid);
        backed = record {
          store_valid = rw (r.page_size) (
              backing_store_read-IsValid lib v₁.backing n (v₁.backing.pages p).page_cache
                r.backed.store_valid);
          registered =
              λ j ne. ground (arith, ne, item j, rest, room.grows, covered, r.backed.registered j);
          clean = λ j off ne cl lt. ground (
            arith,
            ne,
            cl,
            lt,
            item j,
            rest,
            read j off lt,
            r.backed.registered j,
            r.backed.clean j off,
          );
        };
      };
      view = λ j off lt. ground (
        arith,
        item j,
        rest,
        read j off lt,
        r.backed.registered j,
        room.view j off lt,
        room.gone n,
      );
      found = ground (arith, item n);
      not_null = ground (arith, r.next_pos);
      grows = ground (arith, room.grows, rest);
      number_of_pages = room.number_of_pages;
    }
      where
        v₁ : Vmm lib
        v₁ = make_room lib v

        p : ℕ
        p = v₁.next_page

        r : IsValid lib size blocks v₁
        r = room.valid

        item :
            (j : ℕ)
            → lookup lib (lru_cache_add lib v₁.lru_cache n p) j
              ≡ (if n == j then p else resident lib v₁ j)
        item j = lookup-add lib n p j r.lru_valid

        buf : Bytes
        buf = (v₁.backing.pages p).page_cache

        rest :
            ((backing_store_read lib v₁.page_size n buf v₁.backing).1.backing_store
              ≡ v₁.backing.backing_store)
            × ((backing_store_read lib v₁.page_size n buf v₁.backing).1.pages ≡ v₁.backing.pages)
        rest = backing_store_read_rest lib v₁.backing v₁.page_size n buf

        read :
            (j off : ℕ)
            → off < size
            → let (bytes, b) = backing_store_read lib v₁.page_size n buf v₁.backing in
              (bytes off ≡ store_byte lib size v₁.backing n off)
              × (store_byte lib size b j off ≡ store_byte lib size v₁.backing j off)
        read j off lt = rw (r.page_size) (
            backing_store_read_lem lib v₁.backing n j off buf r.backed.store_valid (covered.0)
              (ground (arith, covered.1, room.grows)) lt)

  -- `get_page` in terms of the page size that the invariant names.
  get_page_step :
      (v : Vmm lib) (size addr : ℕ)
      → v.page_size ≡ size
      → size_mul (addr / size) size ≡ addr / size * size
      → get_page lib v addr ≡ (
          let (p, v') = get_tlb lib v (addr / size) in
          if p == 0 then fault lib v' (addr / size) (addr / size * size) else (p, v'))
  unfolding get_page
  get_page_step v size addr e o =
      ap
        (λ s.
          let (p, v') = get_tlb lib v (addr / s) in
          if p == 0 then fault lib v' (addr / s) (size_mul (addr / s) s) else (p, v'))
        e
      ∙ ap
          (λ a.
            let (p, v') = get_tlb lib v (addr / size) in
            if p == 0 then fault lib v' (addr / size) a else (p, v'))
          o

  -- The page of an address within the file becomes resident: `get_page` returns it and not NULL,
  -- the VMM stays valid, the file does not shrink, and no byte of the memory changes.
  pub get_page-HasPage :
      {v : Vmm lib} {size blocks : ℕ} (addr : ℕ)
      → IsValid lib size blocks v
      → IsCovered size v (addr / size)
      → let (p, v') = get_page lib v addr in HasPage size blocks v (addr / size) p v'
  get_page-HasPage {v} {size} {blocks} addr w covered =
      rw (get_page_step v size addr w.page_size offset)
        (elim (Bool-cases ((get_tlb lib v n).0 == 0)) [
          | inr e ↦ rw e (record {
            valid = w';
            view = λ j off lt. ground (arith, get_tlb_lem lib w n j);
            found = ground (arith, get_tlb_lem lib w n n);
            not_null = ground (arith, e);
            grows = ground (arith, get_tlb_lem lib w n n);
            number_of_pages = ground (arith, get_tlb_lem lib w n n);
          })
          | inl e ↦ rw e (
              after (
                fault-HasPage w' n (ground (arith, e, get_tlb_lem lib w n n))
                  (ground (arith, covered, get_tlb_lem lib w n n))))
        ])
    where
      n : ℕ
      n = addr / size

      offset : size_mul n size ≡ n * size
      offset = ground (arith, covered, w.size_pos)

      v₁ : Vmm lib
      v₁ = (get_tlb lib v n).1

      w' : IsValid lib size blocks v₁
      w' = get_tlb-IsValid lib w n

      after : {p : ℕ} {v' : Vmm lib} → HasPage size blocks v₁ n p v' → HasPage size blocks v n p v'
      after h = record {
        valid = h.valid;
        view = λ j off lt. ground (arith, h.view j off lt, get_tlb_lem lib w n j);
        found = h.found;
        not_null = h.not_null;
        grows = ground (arith, h.grows, get_tlb_lem lib w n n);
        number_of_pages = ground (arith, h.number_of_pages, get_tlb_lem lib w n n);
      }

  -- The page of an address of a valid VMM, within the file and the address space, becomes resident: `get_page` returns it and not NULL, it
  -- starts at the page's address, the VMM stays valid with no more resident pages than it may have,
  -- and no byte of the memory changes.
  pub get_page_lem :
      {v : Vmm lib} {size blocks : ℕ} (addr a : ℕ)
      → IsValid lib size blocks v
      → addr / size * size + size ≤ size_mod
      → addr / size * size + size ≤ v.backing.backing_store.size
      → let (p, v') = get_page lib v addr in
        IsValid lib size blocks v'
        × (p ≢ 0)
        × (resident lib v' (addr / size) ≡ p)
        × ((v'.backing.pages p).page_address ≡ addr / size * size)
        × (length (nodes lib v'.lru_cache) ≤ max 1 v.number_of_pages)
        × (mem_byte lib size v' a ≡ mem_byte lib size v a)
  get_page_lem {v} {size} addr a w fits inside =
      let g = get_page-HasPage addr w (fits, inside) in
      (
        g.valid,
        g.not_null,
        g.found,
        ground (arith, g.found, g.not_null, g.valid.backed.registered (addr / size)),
        ground (arith, g.valid.capacity, g.number_of_pages),
        g.view (a / size) (a % size) (mod-lt a w.size_pos),
      )
