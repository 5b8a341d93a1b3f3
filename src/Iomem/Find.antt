-- ===== src/Iomem/Find.antt =====
-- Which range an address falls into.
use esp32_tinyemu.Prelude.{
  ℕ, zero, suc, ◌+◌, ◌≤◌, ◌<◌, ◌≡◌, ◌⊎◌, inl, inr, true, false, ◌==◌, Option, none, some, arith,
  refl, ap, ◌∙◌, Bool-cases,
}
use esp32_tinyemu.LruCache.NodeList.{Libraries}
use esp32_tinyemu.Iomem.{
  PhysMemoryRange, PhysMemoryMap, in_range, find_range, get_phys_mem_range, put_range,
}

module _ {lib : Libraries} {W : Type 0} where
  -- The first index from `i` on, among `n`, whose range has the address.
  abbrev pub IsFirst : (ℕ → PhysMemoryRange lib W) → ℕ → ℕ → Option ℕ → ℕ → ℕ → Type 0
  IsFirst ranges i n none paddr j = (j < i) ⊎ ((i + n ≤ j) ⊎ (in_range (ranges j) paddr ≡ false))
  IsFirst ranges i n (some k) paddr j =
      (i ≤ k)
      × (k < i + n)
      × (in_range (ranges k) paddr ≡ true)
      × ((j < i) ⊎ ((k ≤ j) ⊎ (in_range (ranges j) paddr ≡ false)))

  before_or_at :
      (i : ℕ) (ranges : ℕ → PhysMemoryRange lib W) (paddr j : ℕ)
      → in_range (ranges i) paddr ≡ false
      → j < i + 1
      → (j < i) ⊎ (in_range (ranges j) paddr ≡ false)
  before_or_at i ranges paddr j e lt = elim (Bool-cases (i == j)) [
    | inl s ↦ inr (ap (λ t. in_range (ranges t) paddr) (ground (arith, s)) ∙ e)
    | inr s ↦ inl (ground (arith, s))
  ]

  later :
      (n i : ℕ) (ranges : ℕ → PhysMemoryRange lib W) (paddr j : ℕ) (found : Option ℕ)
      → in_range (ranges i) paddr ≡ false
      → IsFirst ranges (i + 1) n found paddr j
      → IsFirst ranges i (suc n) found paddr j
  later n i ranges paddr j none e (inl lt) = elim (before_or_at i ranges paddr j e lt) [
    | inl l ↦ inl l
    | inr f ↦ inr (inr f)
  ]
  later n i ranges paddr j none e (inr (inl out)) = inr (inl (omega arith))
  later n i ranges paddr j none e (inr (inr f)) = inr (inr f)
  later n i ranges paddr j (some k) e (lo, hi, at, inl lt) = (
    omega arith,
    omega arith,
    at,
    elim (before_or_at i ranges paddr j e lt) [ inl l ↦ inl l | inr f ↦ inr (inr f) ],
  )
  later n i ranges paddr j (some k) e (lo, hi, at, inr rest) =
      (omega arith, omega arith, at, inr rest)

  find-IsFirst :
      (n i : ℕ) (ranges : ℕ → PhysMemoryRange lib W) (paddr j : ℕ)
      → IsFirst ranges i n (find_range n i ranges paddr) paddr j
  unfolding find_range
  find-IsFirst zero i ranges paddr j = omega arith
  find-IsFirst (suc n) i ranges paddr j = elim (Bool-cases (in_range (ranges i) paddr)) [
    | inl e ↦ rw e (omega arith, omega arith, e, ground arith)
    | inr e ↦ rw e (
        later n i ranges paddr j (find_range n (i + 1) ranges paddr) e
          (find-IsFirst n (i + 1) ranges paddr j))
  ]

  -- The search answers NULL if no range of the map has the address, and otherwise the first range
  -- that has it.
  pub get_phys_mem_range_lem :
      (map : PhysMemoryMap lib W) (paddr j : ℕ)
      → IsFirst map.phys_mem_range 0 map.n_phys_mem_range (get_phys_mem_range map paddr) paddr j
  unfolding get_phys_mem_range
  get_phys_mem_range_lem map paddr j =
      find-IsFirst map.n_phys_mem_range 0 map.phys_mem_range paddr j

  pub find_range-same :
      (n i : ℕ) (f g : ℕ → PhysMemoryRange lib W) (paddr : ℕ)
      → ((j : ℕ) → in_range (f j) paddr ≡ in_range (g j) paddr)
      → find_range n i f paddr ≡ find_range n i g paddr
  unfolding find_range
  find_range-same zero i f g paddr same = refl
  find_range-same (suc n) i f g paddr same =
      rw (same i, find_range-same n (i + 1) f g paddr same) refl

  -- A range that keeps its address and size is found as before.
  pub find-put :
      (map : PhysMemoryMap lib W) (i : ℕ) (pr : PhysMemoryRange lib W) (paddr : ℕ)
      → pr.addr ≡ (map.phys_mem_range i).addr
      → pr.size ≡ (map.phys_mem_range i).size
      → get_phys_mem_range (put_range map i pr) paddr ≡ get_phys_mem_range map paddr
  unfolding get_phys_mem_range put_range in_range
  find-put map i pr paddr ea es =
      find_range-same map.n_phys_mem_range 0 (put_range map i pr).phys_mem_range map.phys_mem_range
        paddr
        (λ j. elim (Bool-cases (i == j)) [
          | inl e ↦
              rw (e, ea, es) (ap (λ t. in_range (map.phys_mem_range t) paddr) (ground (arith, e)))
          | inr e ↦ rw e refl
        ])
