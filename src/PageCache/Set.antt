-- ===== src/PageCache/Set.antt =====
-- `page_cache_set` against pages that are cached here or kept by the client.
use esp32_tinyemu.Prelude.{
  ℕ, ◌+◌, ◌*◌, ◌≤◌, ◌<◌, ◌≡◌, ◌≢◌, ◌==◌, if◌then◌else◌, arith, ltb, size_mod, Bytes, Bool-cases,
  inl, inr,
}
use esp32_tinyemu.Himem.{himem_write}
use esp32_tinyemu.Himem.Laws.{himem_write_lem, himem_write-IsValid}
use esp32_tinyemu.LruCache.NodeList.{Libraries}
use esp32_tinyemu.PageCache.{
  PageCache, find_page, allocate_block, reuse_block, insert_page, page_cache_set,
}
use esp32_tinyemu.PageCache.Inv.{IsValid, page_item, block_of}
use esp32_tinyemu.PageCache.Find.{cached_byte, find_page_lem, find_page-IsValid}
use esp32_tinyemu.PageCache.Block.{
  allocate-IsConsistent, allocate-IsSpare, allocate_pages, insert-IsValid, insert_pages,
}
use esp32_tinyemu.PageCache.Reuse.{
  reuse-IsConsistent, reuse-IsSpare, reuse_pages, reuse_flushes, victim, victim_lem,
}

module _ (lib : Libraries) where
  -- A write to a block that a cached page already has.
  abbrev pub overwrite : PageCache lib → ℕ → Bytes → PageCache lib
  overwrite pc p buff = record pc {
    himem = (himem_write pc.himem (pc.items p).block_id buff pc.page_size).1;
  }

  overwrite-IsValid :
      {pc : PageCache lib} {size blocks : ℕ} (p : ℕ) (buff : Bytes)
      → IsValid lib size blocks pc
      → IsValid lib size blocks (overwrite pc p buff)
  overwrite-IsValid {pc} p buff v = record {
    lru_valid = v.lru_valid;
    himem_valid = himem_write-IsValid (pc.items p).block_id buff pc.page_size v.himem_valid;
    page_size = v.page_size;
    maximum_blocks = v.maximum_blocks;
    blocks_pos = v.blocks_pos;
    lines = v.lines;
    next_pos = v.next_pos;
    allocated = v.allocated;
    allocated-le = v.allocated-le;
    coherent = v.coherent;
    registered = v.registered;
    apart = v.apart;
  }

  overwrite_pages :
      {pc : PageCache lib} {size blocks : ℕ} (n j off : ℕ) (buff : Bytes)
      → IsValid lib size blocks pc
      → page_item lib pc n ≢ 0
      → page_item lib pc j ≢ 0
      → off < size
      → cached_byte lib (overwrite pc (page_item lib pc n) buff) size j off
        ≡ (if n == j then buff off else cached_byte lib pc size j off)
  overwrite_pages {pc} {size} {blocks} n j off buff v nn nj lt = ground (
    arith,
    nn,
    nj,
    v.page_size,
    v.registered n,
    v.registered j,
    v.allocated-le,
    v.apart n j,
    himem_write_lem (block_of lib pc n) buff (block_of lib pc j) off v.himem_valid,
  )

  -- The byte of a page: from its block, or from what the client keeps.
  abbrev pub page_byte : PageCache lib → ℕ → (ℕ → ℕ → ℕ) → ℕ → ℕ → ℕ
  page_byte pc size kept k off =
      if page_item lib pc k == 0 then kept k off else cached_byte lib pc size k off

  module _ {S : Type 0} (on_flush : ℕ → Bytes → S → S) (kept : S → ℕ → ℕ → ℕ) (size : ℕ)
      (keeps : (k m off : ℕ) (b : Bytes) (s : S)
        → k * size + size ≤ size_mod
        → off < size
        → kept (on_flush k b s) m off ≡ (if k == m then b off else kept s m off)) where
    allocated_pages :
        {pc : PageCache lib} {blocks : ℕ} (n j off : ℕ) (buff : Bytes) (s : S)
        → IsValid lib size blocks pc
        → page_item lib pc n ≡ 0
        → pc.himem_last_allocated_block < blocks
        → n * size + size ≤ size_mod
        → off < size
        → let (p, pc') = allocate_block lib pc n in
          page_byte (insert_page lib pc' p n buff) size (kept s) j off
          ≡ (if n == j then buff off else page_byte pc size (kept s) j off)
    allocated_pages {pc} {blocks} n j off buff s v absent lt fits lo =
        let ready = allocate-IsConsistent lib n v lt in
        let spare = allocate-IsSpare lib n v lt absent fits in
        ground (
          arith,
          insert_pages lib n j off buff ready spare lo,
          allocate_pages lib n j off v,
          spare.not_null,
        )

    reused_pages :
        {pc : PageCache lib} {blocks : ℕ} (n j off : ℕ) (buff : Bytes) (s : S)
        → IsValid lib size blocks pc
        → page_item lib pc n ≡ 0
        → blocks ≤ pc.himem_last_allocated_block
        → n * size + size ≤ size_mod
        → off < size
        → let (p, pc', s') = reuse_block lib on_flush pc n s in
          page_byte (insert_page lib pc' p n buff) size (kept s') j off
          ≡ (if n == j then buff off else page_byte pc size (kept s) j off)
    reused_pages {pc} {blocks} n j off buff s v absent full fits lo =
        let ready = reuse-IsConsistent lib on_flush n s v full absent in
        let spare = reuse-IsSpare lib on_flush n s v full absent fits in
        let (buf, flushed, same) = reuse_flushes lib on_flush n s v full in
        ground (
          arith,
          insert_pages lib n j off buff ready spare lo,
          reuse_pages lib on_flush n s v full j off,
          spare.not_null,
          flushed,
          same off lo,
          victim_lem lib on_flush v full,
          v.registered (victim lib on_flush v),
          keeps (victim lib on_flush v) j off buf s,
        )

    -- A write of a page of a valid page cache makes its bytes those of the buffer, if they lie below
    -- the limit of size_t, wherever its block comes from, and
    -- changes no byte of another page: an evicted page lives on in what the client keeps.
    pub page_cache_set_lem :
        {pc : PageCache lib} {blocks : ℕ} (n j off : ℕ) (buff : Bytes) (s : S)
        → IsValid lib size blocks pc
        → n * size + size ≤ size_mod
        → off < size
        → let (pc', s') = page_cache_set lib on_flush pc n buff s in
          page_byte pc' size (kept s') j off
          ≡ (if n == j then buff off else page_byte pc size (kept s) j off)
    unfolding page_cache_set
    page_cache_set_lem {pc} {blocks} n j off buff s v fits lo =
        let w = find_page-IsValid lib n v in
        let pc' = (find_page lib pc n).1 in
        elim (Bool-cases ((find_page lib pc n).0 == 0)) [
          | inr e ↦ rw e (
              ground (
                arith,
                e,
                find_page_lem lib n j v,
                find_page_lem lib n n v,
                overwrite_pages n j off buff w,
              ))
          | inl e ↦
              rw e
                (elim (Bool-cases (ltb pc'.himem_last_allocated_block pc'.himem_maximum_blocks)) [
                  | inl h ↦ rw h (
                      ground (
                        arith,
                        e,
                        find_page_lem lib n j v,
                        find_page_lem lib n n v,
                        allocated_pages n j off buff s w
                            (ground (arith, e, find_page_lem lib n n v))
                            (ground (arith, h, w.maximum_blocks)) fits lo,
                      ))
                  | inr h ↦ rw h (
                      ground (
                        arith,
                        e,
                        find_page_lem lib n j v,
                        find_page_lem lib n n v,
                        reused_pages n j off buff s w (ground (arith, e, find_page_lem lib n n v))
                            (ground (arith, h, w.maximum_blocks)) fits lo,
                      ))
                ])
        ]

    -- A write of a page whose bytes lie below the limit of size_t keeps the invariant.
    pub page_cache_set-IsValid :
        {pc : PageCache lib} {blocks : ℕ} (n : ℕ) (buff : Bytes) (s : S)
        → IsValid lib size blocks pc
        → n * size + size ≤ size_mod
        → IsValid lib size blocks (page_cache_set lib on_flush pc n buff s).0
    unfolding page_cache_set
    page_cache_set-IsValid {pc} {blocks} n buff s v fits =
        let w = find_page-IsValid lib n v in
        let pc' = (find_page lib pc n).1 in
        elim (Bool-cases ((find_page lib pc n).0 == 0)) [
          | inr e ↦ rw e (overwrite-IsValid (find_page lib pc n).0 buff w)
          | inl e ↦
              rw e
                (elim (Bool-cases (ltb pc'.himem_last_allocated_block pc'.himem_maximum_blocks)) [
                  | inl h ↦ rw h (
                      insert-IsValid lib n buff
                        (allocate-IsConsistent lib n w (ground (arith, h, w.maximum_blocks)))
                        (allocate-IsSpare lib n w (ground (arith, h, w.maximum_blocks))
                          (ground (arith, e, find_page_lem lib n n v)) fits))
                  | inr h ↦ rw h (
                      insert-IsValid lib n buff
                        (reuse-IsConsistent lib on_flush n s w (ground (arith, h, w.maximum_blocks))
                          (ground (arith, e, find_page_lem lib n n v)))
                        (reuse-IsSpare lib on_flush n s w (ground (arith, h, w.maximum_blocks))
                          (ground (arith, e, find_page_lem lib n n v)) fits))
                ])
        ]

  -- What every flush of the client keeps, a write of a page keeps.
  pub page_cache_set_inv :
      {S : Type 0} (on_flush : ℕ → Bytes → S → S) (P : S → Type 0)
      → ((k : ℕ) (b : Bytes) (s : S) → P s → P (on_flush k b s))
      → {pc : PageCache lib} {size blocks : ℕ} (n : ℕ) (buff : Bytes) (s : S)
      → IsValid lib size blocks pc
      → P s
      → P (page_cache_set lib on_flush pc n buff s).1
  unfolding page_cache_set
  page_cache_set_inv on_flush P keep {pc} {size} {blocks} n buff s v h =
      let w = find_page-IsValid lib n v in
      let pc' = (find_page lib pc n).1 in
      elim (Bool-cases ((find_page lib pc n).0 == 0)) [
        | inr e ↦ rw e h
        | inl e ↦
            rw e (elim (Bool-cases (ltb pc'.himem_last_allocated_block pc'.himem_maximum_blocks)) [
              | inl lt ↦ rw lt h
              | inr full ↦ rw full (
                  let flushed =
                    reuse_flushes lib on_flush n s w (ground (arith, full, w.maximum_blocks)) in
                  rw (flushed.1) (keep (victim lib on_flush w) flushed.0 s h))
            ])
      ]
