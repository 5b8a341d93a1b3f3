-- ===== src/Vmm/Sync.antt =====
-- `vmm_flush`: the memory stays as it is, and afterwards the page cache and the file hold all of it.
use esp32_tinyemu.Prelude.{ℕ, ◌≤◌, ◌<◌, ◌≡◌, ◌≢◌, false, arith, refl, inl, inr, ◌∙◌, eq-cases}
use native.Mathlib.Nat.{le_trans}
use esp32_tinyemu.LruCache.NodeList.{Libraries}
use esp32_tinyemu.LruCache.Inv.{lookup}
use esp32_tinyemu.LruCache.Sync.{sync_inv, sync_marks}
use esp32_tinyemu.LruCache.{lru_cache_sync}
use esp32_tinyemu.Vmm.Store.{Backing, on_page_flush}
use esp32_tinyemu.Vmm.BackingStore.{store_byte}
use esp32_tinyemu.Vmm.{Vmm, vmm_flush}
use esp32_tinyemu.Vmm.Inv.{IsBacked, IsValid, backed_byte, page_view, resident}
use esp32_tinyemu.Vmm.Flush.{on_page_flush_pages, on_page_flush-IsBacked, on_page_flush_view}
use esp32_tinyemu.Vmm.Range.{HoldsPages}
use esp32_tinyemu.Vmm.Read.{Follows}

module _ (lib : Libraries) (size blocks count : ℕ) where
  -- What every flush of a resident page keeps.
  record Keeps (v : Vmm lib) (b : Backing lib) : Type 0 where
    backed : IsBacked lib size blocks v.next_page (lookup lib v.lru_cache) b
    view :
        (j off : ℕ)
        → off < size
        → backed_byte lib size (lookup lib v.lru_cache) b j off ≡ page_view lib size v j off
    grows : v.backing.backing_store.size ≤ b.backing_store.size

  module _ {v : Vmm lib} (w : IsValid lib size blocks v) where
    keeps_step :
        (k : ℕ) (b : Backing lib)
        → resident lib v k ≢ 0
        → Keeps v b
        → Keeps v (on_page_flush lib v.page_size k (resident lib v k) b)
    keeps_step k b ne h = rw w.page_size (record {
      backed = on_page_flush-IsBacked lib k h.backed ne;
      view = λ j off lt. on_page_flush_view lib k j off h.backed ne lt ∙ h.view j off lt;
      grows = le_trans h.grows (on_page_flush_pages lib k 0 h.backed ne).4;
    })

    start : Keeps v v.backing
    start = record { backed = w.backed; view = λ j off lt. refl; grows = omega arith }

    abbrev synced : Backing lib
    synced = lru_cache_sync lib (on_page_flush lib v.page_size) v.lru_cache v.backing

    keeps_synced : Keeps v synced
    keeps_synced =
        sync_inv lib (on_page_flush lib v.page_size) (Keeps v) v.backing w.lru_valid keeps_step
          start

    is_clean : (k : ℕ) → resident lib v k ≢ 0 → (synced.pages (resident lib v k)).dirty ≡ false
    is_clean k ne =
        sync_marks lib (on_page_flush lib v.page_size) w.lru_valid (Keeps v)
          (λ j b. (b.pages (resident lib v j)).dirty ≡ false) keeps_step mark stay v.backing k ne
          start
      where
        mark :
            (j : ℕ) (b : Backing lib)
            → resident lib v j ≢ 0
            → Keeps v b
            → ((on_page_flush lib v.page_size j (resident lib v j) b).pages
                (resident lib v j)).dirty
              ≡ false
        mark j b nj h =
            rw w.page_size
              (ground (arith, on_page_flush_pages lib j (resident lib v j) h.backed nj))

        stay :
            (i j : ℕ) (b : Backing lib)
            → resident lib v j ≢ 0
            → Keeps v b
            → (b.pages (resident lib v i)).dirty ≡ false
            → ((on_page_flush lib v.page_size j (resident lib v j) b).pages
                (resident lib v i)).dirty
              ≡ false
        stay i j b nj h e =
            rw w.page_size
              (ground (arith, e, on_page_flush_pages lib j (resident lib v i) h.backed nj))

    flush-IsValid : IsValid lib size blocks (vmm_flush lib v)
    unfolding vmm_flush
    flush-IsValid = record {
      size_pos = w.size_pos;
      size_u16 = w.size_u16;
      page_size = w.page_size;
      lru_valid = w.lru_valid;
      lines = w.lines;
      next_pos = w.next_pos;
      coherent = w.coherent;
      number_u32 = w.number_u32;
      capacity = w.capacity;
      pages = w.pages;
      backed = keeps_synced.backed;
    }

    -- A flush of a valid VMM keeps the invariant and every byte of the memory, and leaves every byte of the memory
    -- in the page cache or the file.
    pub vmm_flush_lem :
        HoldsPages size count v
        → (j off : ℕ) → off < size
        → let v' = vmm_flush lib v in
          Follows lib size blocks count v v'
          × (page_view lib size v' j off ≡ page_view lib size v j off)
          × (store_byte lib size v'.backing j off ≡ page_view lib size v j off)
    unfolding vmm_flush
    vmm_flush_lem h j off lt = (
      record {
        valid = unfold vmm_flush in flush-IsValid;
        holds = record {
          addressable = h.addressable;
          stored = le_trans h.stored keeps_synced.grows;
        };
        number_of_pages = refl;
      },
      keeps_synced.view j off lt,
      elim (eq-cases (resident lib v j) 0) [
        | inl e ↦ ground (arith, e, keeps_synced.view j off lt)
        | inr ne ↦ ground (
          arith,
          ne,
          keeps_synced.view j off lt,
          keeps_synced.backed.clean j off ne (is_clean j ne) lt,
        )
      ],
    )
