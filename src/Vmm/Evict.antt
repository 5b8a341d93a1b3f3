-- ===== src/Vmm/Evict.antt =====
-- `free_vmtable` and the eviction in `find_empty_tlb`: a resident page leaves the memory, and no byte
-- of it changes.
use esp32_tinyemu.Prelude.{
  ℕ, ◌+◌, ◌≤◌, ◌<◌, ◌≡◌, ◌≢◌, ◌==◌, if◌then◌else◌, leb, arith, max, refl, Bool-cases, inl, inr,
  length, eq-cases, ap, ◌∙◌, size_sub, ==_of_ne,
}
use esp32_tinyemu.DirectCache.{direct_cache_remove}
use esp32_tinyemu.DirectCache.Laws.{get-remove, size-remove}
use esp32_tinyemu.LruCache.NodeList.{Libraries}
use esp32_tinyemu.LruCache.{lru_cache_remove, lru_cache_get_least_recently_used}
use esp32_tinyemu.LruCache.Inv as LruInv
use esp32_tinyemu.LruCache.Inv.{nodes, lookup}
use esp32_tinyemu.LruCache.Add.{least_recently_used_lem, least_recently_used-empty}
use esp32_tinyemu.LruCache.Evict.{remove-IsValid, lookup-remove, remove-length, remove_flushes}
use esp32_tinyemu.Vmm.Store.{on_page_flush}
use esp32_tinyemu.Vmm.{Vmm, free_vmtable, make_room}
use esp32_tinyemu.Vmm.Inv.{IsValid, resident, page_view}
use esp32_tinyemu.Vmm.Flush.{on_page_flush_store, on_page_flush_pages, on_page_flush-IsBacked}

module _ (lib : Libraries) {v : Vmm lib} {size blocks : ℕ} (w : IsValid lib size blocks v) where
  module _ (k : ℕ) (ne : resident lib v k ≢ 0) where
    -- The number of a resident page is the key under which it is found.
    number : (v.backing.pages (resident lib v k)).page_number ≡ k
    number = (w.backed.registered k ne).0

    flushed :
        (lru_cache_remove lib (on_page_flush lib v.page_size) v.lru_cache k v.backing).1
        ≡ on_page_flush lib size k (resident lib v k) v.backing
    flushed =
        rw (remove_flushes lib (on_page_flush lib v.page_size) k v.backing w.lru_valid ne)
          (rw w.page_size)

    pub free_lem :
        (j : ℕ)
        → let v' = free_vmtable lib v (resident lib v k) in
          (resident lib v' j ≡ (if k == j then 0 else resident lib v j))
          × (v'.backing ≡ on_page_flush lib size k (resident lib v k) v.backing)
          × (v'.page_size ≡ v.page_size)
          × (v'.number_of_pages ≡ v.number_of_pages)
          × (v'.pagetable_size ≡ v.pagetable_size)
          × (v'.next_page ≡ v.next_page)
          × (v'.direct_cache ≡ direct_cache_remove v.direct_cache k)
          × (length (nodes lib v'.lru_cache) + 1 ≡ length (nodes lib v.lru_cache))
    unfolding free_vmtable
    free_lem j = rw number (
      lookup-remove lib (on_page_flush lib v.page_size) k j v.backing w.lru_valid,
      flushed,
      refl,
      refl,
      refl,
      refl,
      rw flushed (
          ap (direct_cache_remove v.direct_cache)
            ((on_page_flush_pages lib k (resident lib v k) w.backed ne).0 ∙ number)),
      remove-length lib (on_page_flush lib v.page_size) k v.backing w.lru_valid ne,
    )

    free_lru : LruInv.IsValid lib (free_vmtable lib v (resident lib v k)).lru_cache
    unfolding free_vmtable
    free_lru =
        rw number (remove-IsValid lib (on_page_flush lib v.page_size) k v.backing w.lru_valid)

    free-IsValid :
        let v' = free_vmtable lib v (resident lib v k) in
        IsValid lib size blocks (record v' { pagetable_size = size_sub v'.pagetable_size 1 })
    free-IsValid = record {
      size_pos = w.size_pos;
      size_u16 = w.size_u16;
      page_size = ground (arith, free_lem 0, w.page_size);
      lru_valid = free_lru;
      number_u32 = ground (arith, free_lem 0, w.number_u32);
      capacity = ground (arith, free_lem 0, w.capacity);
      lines = ground (arith, free_lem 0, w.lines, size-remove v.direct_cache k);
      next_pos = ground (arith, free_lem 0, w.next_pos);
      coherent = λ j nj.
          ground (arith, nj, free_lem j, w.lines, get-remove v.direct_cache k j, w.coherent j);
      pages = ground (arith, free_lem 0, w.pages);
      backed = record {
        store_valid = rw ((free_lem 0).1) (on_page_flush-IsBacked lib k w.backed ne).store_valid;
        registered = λ j nj.
            ground (arith, nj, free_lem j, (on_page_flush-IsBacked lib k w.backed ne).registered j);
        clean = λ j off nj cl lt.
            ground (
              arith,
              nj,
              cl,
              lt,
              free_lem j,
              (on_page_flush-IsBacked lib k w.backed ne).clean j off,
            );
      };
    }

    -- The page that leaves is in the store as it was; the others do not change.
    free_view :
        (j off : ℕ)
        → off < size
        → page_view lib size (free_vmtable lib v (resident lib v k)) j off
          ≡ page_view lib size v j off
    free_view j off lt = ground (
      arith,
      free_lem j,
      on_page_flush_pages lib k (resident lib v j) w.backed ne,
      on_page_flush_store lib k j off w.backed ne lt,
    )

    free_file :
        v.backing.backing_store.size
        ≤ (free_vmtable lib v (resident lib v k)).backing.backing_store.size
    free_file = ground (arith, free_lem 0, on_page_flush_pages lib k 0 w.backed ne)

  -- What an eviction leaves: a valid VMM with the same memory, room for one more page, and no page
  -- that was not resident before.
  pub record MadeRoom (v' : Vmm lib) : Type 0 where
    pub valid : IsValid lib size blocks v'
    pub view : (j off : ℕ) → off < size → page_view lib size v' j off ≡ page_view lib size v j off
    pub gone : (j : ℕ) → resident lib v j ≡ 0 → resident lib v' j ≡ 0
    pub room : length (nodes lib v'.lru_cache) + 1 ≤ max 1 v'.number_of_pages
    pub number_of_pages : v'.number_of_pages ≡ v.number_of_pages
    pub grows : v.backing.backing_store.size ≤ v'.backing.backing_store.size

  evicted :
      (k : ℕ)
      → resident lib v k ≢ 0
      → let v' = free_vmtable lib v (resident lib v k) in
        MadeRoom (record v' { pagetable_size = size_sub v'.pagetable_size 1 })
  evicted k ne = record {
    valid = free-IsValid k ne;
    view = λ j off lt. free_view k ne j off lt;
    gone = λ j e. ground (arith, e, free_lem k ne j);
    room = ground (arith, w.capacity, free_lem k ne 0);
    number_of_pages = ground (arith, free_lem k ne 0);
    grows = free_file k ne;
  }

  pub make_room-MadeRoom : MadeRoom (make_room lib v)
  unfolding make_room
  make_room-MadeRoom = elim (Bool-cases (leb v.number_of_pages v.pagetable_size)) [
    | inr e ↦ rw e (stay (ground (arith, e, w.pages, w.capacity, w.number_u32)))
    | inl e ↦ rw e (elim (eq-cases (length (nodes lib v.lru_cache)) 0) [
      | inl empty ↦
          rw (least_recently_used-empty lib w.lru_valid empty) (stay (ground (arith, empty)))
      | inr ne ↦ some_page (least_recently_used_lem lib w.lru_valid ne)
    ])
  ]
    where
      stay : length (nodes lib v.lru_cache) + 1 ≤ max 1 v.number_of_pages → MadeRoom v
      stay h = record {
        valid = w;
        view = λ j off lt. refl;
        gone = λ j e. e;
        room = h;
        number_of_pages = refl;
        grows = omega arith;
      }

      some_page :
          (k : ℕ) × (resident lib v k ≡ lru_cache_get_least_recently_used lib v.lru_cache)
            × (lru_cache_get_least_recently_used lib v.lru_cache ≢ 0)
          → let last = lru_cache_get_least_recently_used lib v.lru_cache in
            let freed = free_vmtable lib v last in
            MadeRoom (
              if last == 0
              then v
              else record freed { pagetable_size = size_sub freed.pagetable_size 1 })
      some_page (k, e, ne) = rw (==_of_ne _ 0 ne, ← e) (evicted k (rw e ne))
