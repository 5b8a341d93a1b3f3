-- ===== src/LruCache/Sync.antt =====
-- `lru_cache_sync`: it flushes every cached pointer under its key, and nothing else.
use esp32_tinyemu.Prelude.{
  ℕ, ◌<◌, ◌≡◌, ◌≢◌, true, List, [], ◌∷◌, ◌==◌, if◌then◌else◌, arith, contains, ==_of_ne, ◌⊎◌, inl,
  inr, ◌||◌, Bool-cases, sym, eq_of_==,
}
use esp32_tinyemu.LruCache.NodeList.{Libraries}
use esp32_tinyemu.LruCache.{Cache, find_item, lru_cache_sync, sync_nodes}
use esp32_tinyemu.LruCache.Inv.{IsValid, nodes, lookup}
use esp32_tinyemu.LruCache.Evict.{lookup_of_listed}

module _ (lib : Libraries) where
  open lib use {iterate_lem}

  module _ {W : Type 0} (on_flush : ℕ → ℕ → W → W) where
    -- A walk over listed items keeps what every flush of a cached pointer under its key keeps.
    sync_nodes_inv :
        {c : Cache lib} (P : W → Type 0) (is : List ℕ) (w : W)
        → IsValid lib c
        → ((k : ℕ) (x : W) → lookup lib c k ≢ 0 → P x → P (on_flush k (lookup lib c k) x))
        → ((i : ℕ) → contains is i ≡ true → contains (nodes lib c) i ≡ true)
        → P w
        → P (sync_nodes lib on_flush c.items is w)
    unfolding sync_nodes contains
    sync_nodes_inv P [] w v keep sub h = h
    sync_nodes_inv {c} P (i ∷ is) w v keep sub h =
        sync_nodes_inv P is _ v keep (λ j m. sub j (ground (arith, m)))
          (flushed (v.listed i (sub i (ground arith))))
      where
        flushed :
            (find_item lib c (c.items i).key ≡ i)
              × (i ≢ 0)
              × (i < c.next_item)
              × ((c.items i).value ≢ 0)
            → P (if i == 0 then w else on_flush (c.items i).key (c.items i).value w)
        flushed (e, ne, _, nv) = rw (==_of_ne i 0 ne) (
            rw (lookup_of_listed lib v (sub i (ground arith))) at
              (keep (c.items i).key w (rw (lookup_of_listed lib v (sub i (ground arith))) nv) h))

    -- A sync keeps what every flush of a cached pointer under its key keeps.
    pub sync_inv :
        {c : Cache lib} (P : W → Type 0) (w : W)
        → IsValid lib c
        → ((k : ℕ) (x : W) → lookup lib c k ≢ 0 → P x → P (on_flush k (lookup lib c k) x))
        → P w
        → P (lru_cache_sync lib on_flush c w)
    unfolding lru_cache_sync
    sync_inv {c} P w v keep h =
        rw (iterate_lem c.cache_item_list v.list_valid)
          (sync_nodes_inv P (nodes lib c) w v keep (λ i m. m) h)

    -- The flush that a walk makes for a listed item.
    step_eq :
        {c : Cache lib} (i : ℕ) (w : W)
        → IsValid lib c
        → contains (nodes lib c) i ≡ true
        → (if i == 0 then w else on_flush (c.items i).key (c.items i).value w)
          ≡ on_flush (c.items i).key (lookup lib c (c.items i).key) w
    step_eq {c} i w v m = rw (==_of_ne i 0 (v.listed i m).1, lookup_of_listed lib v m)

    module _ {c : Cache lib} (v : IsValid lib c) (P : W → Type 0) (Q : ℕ → W → Type 0)
        (keep : (k : ℕ) (x : W) → lookup lib c k ≢ 0 → P x → P (on_flush k (lookup lib c k) x))
        (mark : (k : ℕ) (x : W) → lookup lib c k ≢ 0 → P x → Q k (on_flush k (lookup lib c k) x))
        (stay : (j k : ℕ) (x : W)
          → lookup lib c k ≢ 0
          → P x
          → Q j x
          → Q j (on_flush k (lookup lib c k) x)) where
      cached : (i : ℕ) → contains (nodes lib c) i ≡ true → lookup lib c (c.items i).key ≢ 0
      cached i m = rw (lookup_of_listed lib v m) (v.listed i m).3

      -- A walk marks the keys of its items and keeps every mark.
      sync_nodes_marks :
          (is : List ℕ) (w : W) (j : ℕ)
          → ((i : ℕ) → contains is i ≡ true → contains (nodes lib c) i ≡ true)
          → P w
          → Q j w ⊎ ((i : ℕ) × (contains is i ≡ true) × ((c.items i).key ≡ j))
          → Q j (sync_nodes lib on_flush c.items is w)
      unfolding sync_nodes contains
      sync_nodes_marks [] w j sub h (inl q) = q
      sync_nodes_marks [] w j sub h (inr (i, m, e)) = absurd (cc m)
      sync_nodes_marks (i ∷ is) w j sub h q =
          sync_nodes_marks is _ j (λ a m. sub a (ground (arith, m)))
            (rw (step_eq i w v (sub i (ground arith)))
              (keep _ w (cached i (sub i (ground arith))) h))
            (rw (step_eq i w v (sub i (ground arith))) (split q))
        where
          split :
              Q j w ⊎ ((a : ℕ) × ((i == a || contains is a) ≡ true) × ((c.items a).key ≡ j))
              → Q j (on_flush (c.items i).key (lookup lib c (c.items i).key) w)
                ⊎ ((a : ℕ) × (contains is a ≡ true) × ((c.items a).key ≡ j))
          split (inl q') = inl (stay j _ w (cached i (sub i (ground arith))) h q')
          split (inr (a, m, e)) = elim (Bool-cases (i == a)) [
            | inl same ↦
                inl (rw (sym e, ← eq_of_== i a same) (mark _ w (cached i (sub i (ground arith))) h))
            | inr other ↦ inr (a, ground (arith, m, other), e)
          ]

      -- After a sync every cached key is marked.
      pub sync_marks :
          (w : W) (k : ℕ) → lookup lib c k ≢ 0 → P w → Q k (lru_cache_sync lib on_flush c w)
      unfolding lru_cache_sync lookup
      sync_marks w k ne h = rw (iterate_lem c.cache_item_list v.list_valid) (
          sync_nodes_marks (nodes lib c) w k (λ i m. m) h
            (inr (
              find_item lib c k,
              (v.found k (ground (arith, ne))).0,
              (v.found k (ground (arith, ne))).1,
            )))
