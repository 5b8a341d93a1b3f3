-- ===== src/Exec/Rounds/Fetches.antt =====
-- The first half of a round keeps the invariant, and finds no instruction in the last page.
use esp32_tinyemu.Prelude.{
  ℕ, ◌+◌, ◌*◌, ◌%◌, ◌^◌, ◌≤◌, ◌<◌, ◌≡◌, inl, inr, true, ◌==◌, if◌then◌else◌, leb, Option, none,
  some, arith, refl, sym, ◌∙◌, subst, size_add, word_and, Bool-cases, Always, present, Always-bind,
  Always-if, Always-weaken, Always-both,
}
use esp32_tinyemu.LruCache.NodeList.{Libraries}
use esp32_tinyemu.Cpu.{RiscvCpu}
use esp32_tinyemu.Interp.Core.{IsCore, raise_interrupt-IsCore}
use esp32_tinyemu.Iomem.{PhysMemoryMap, get_phys_mem_range}
use esp32_tinyemu.Iomem.Same.{same_find}
use esp32_tinyemu.Iomem.Write.{machine_memory}
use esp32_tinyemu.Mmu.{code}
use esp32_tinyemu.Mmu.Range.{IsWord, get_phys_addr-IsWord}
use esp32_tinyemu.Bus.{
  Target, target_read_insn_slow_vmm, get_vmm_insn32, with_exception, cause_fetch_page_fault,
}
use esp32_tinyemu.Bus.Keeps.{
  KeepsCore, IsGood, recored, target_read_insn_slow_vmm-IsGood, get_vmm_insn32-IsGood,
}
use esp32_tinyemu.Exec.{with_pc}
use esp32_tinyemu.Exec.Loop.{
  Block, get_pc, Fetched, fetched, ending, fetch_fault, check_interrupts, page_block, fetch_halves,
  fetch_at, refill, fetch,
}
use esp32_tinyemu.Exec.Keeps.{with_pc-IsGood}
use esp32_tinyemu.Exec.Rounds.{room, GoodBlock, last_page, page_block-GoodBlock, TopFree}

module _ {lib : Libraries} {W : Type 0} (map0 : PhysMemoryMap lib (RiscvCpu × W))
    (devices : KeepsCore map0) (free : TopFree map0) where
  -- How the first half of a round with the block `b` ends; in the rounds after `n_cycles` has run out,
  -- with the same block, which is not empty.
  pub data GoodFetched (n rounds : ℕ) (b : Block) : Fetched lib W → Type 0 where
    good_fetched :
        {t : Target lib W} {b' : Block} {insn : ℕ}
        → IsGood map0 t
        → GoodBlock b'
        → insn < 2 ^ 32
        → (last_page ≤ b'.code_ptr → insn ≡ 0)
        → (n < rounds → (0 < room b') × (room b' ≤ room b))
        → GoodFetched n rounds b (fetched t b' insn)
    good_ending : {t : Target lib W} → IsGood map0 t → GoodFetched n rounds b (ending t)
    good_fault :
        {t : Target lib W} {pc : ℕ}
        → IsGood map0 t
        → pc % 2 ≡ 0
        → GoodFetched n rounds b (fetch_fault t pc)

  unmapped :
      (t : Target lib W) (ptr : ℕ)
      → get_phys_mem_range t.mem_map ptr ≡ none
      → get_vmm_insn32 t ptr ≡ some (0, t)
  unfolding get_vmm_insn32
  unmapped t ptr e = rw (get_vmm_insn32, e) refl

  -- An instruction word at `ptr`, which is 0 in the last page.
  insn_lem :
      (t : Target lib W) (ptr : ℕ)
      → IsGood map0 t
      → Always
          (λ (r : ℕ × Target lib W). IsGood map0 r.1 × (last_page ≤ ptr → r.0 ≡ 0))
          (get_vmm_insn32 t ptr)
  insn_lem t ptr g = elim (Bool-cases (leb last_page ptr)) [
    | inl top ↦
        subst
          (λ o. Always (λ (r : ℕ × Target lib W). IsGood map0 r.1 × (last_page ≤ ptr → r.0 ≡ 0)) o)
          (sym (
            unmapped t ptr
              (same_find map0 t.mem_map ptr g.ranges ∙ free ptr (ground (arith, top)))))
          (present (g, λ le. refl))
    | inr under ↦
        Always-weaken (get_vmm_insn32-IsGood map0 devices t ptr g)
          (λ r h. (h, λ le. absurd (ground (arith, under, le))))
  ]

  address_lem :
      (t : Target lib W) (addr : ℕ)
      → addr < 2 ^ 32
      → IsGood map0 t
      → Always
          (λ (r : Option ℕ × Target lib W). IsGood map0 r.1 × IsWord r.0)
          (target_read_insn_slow_vmm t addr)
  unfolding target_read_insn_slow_vmm
  address_lem t addr lt g = Always-both (target_read_insn_slow_vmm-IsGood map0 devices t addr g) (
      Always-bind
        (get_phys_addr-IsWord (machine_memory lib (RiscvCpu × W)) t.core t.mem_map addr code lt)
        (λ r word. after r.0 r.1 word))
    where
      after :
          (o : Option ℕ) (map : PhysMemoryMap lib (RiscvCpu × W))
          → IsWord o
          → Always
              (λ (r : Option ℕ × Target lib W). IsWord r.0)
              ((elim o
                  as (λ _. PhysMemoryMap lib (RiscvCpu × W) → Option (Option ℕ × Target lib W)) [
                    | none ↦ λ map'. some (
                      none,
                      record t {
                        mem_map = map';
                        core = with_exception t.core addr cause_fetch_page_fault;
                      },
                    )
                    | some paddr ↦ λ map'. some (some paddr, record t { mem_map = map' })
                  ])
                map)
      after none map word = present (omega arith)
      after (some paddr) map word = present word

  fetch_at-GoodFetched :
      (n rounds : ℕ) (b0 b : Block) (t : Target lib W)
      → IsGood map0 t
      → GoodBlock b
      → (n < rounds → (0 < room b) × (room b ≤ room b0))
      → Always (GoodFetched n rounds b0) (fetch_at t b)
  unfolding fetch_at
  fetch_at-GoodFetched n rounds b0 b t g gb same =
      Always-bind (insn_lem t b.code_ptr g)
        (λ r h. present (good_fetched h.0 gb (omega arith) (λ le. rw (h.1 le) refl) same))

  -- The first half word of an instruction at the end of a page, and the second one.
  second_half :
      (n rounds : ℕ) (b0 b : Block) (low : ℕ) (o : Option ℕ) (t : Target lib W)
      → low < 2 ^ 16
      → b.code_ptr < last_page
      → IsGood map0 t
      → GoodBlock b
      → rounds ≤ n
      → Always (GoodFetched n rounds b0) (
          (elim o as (λ _. Target lib W → Option (Fetched lib W)) [
            | none ↦ λ t2. some (fetch_fault t2 (get_pc b))
            | some high ↦ λ t2. elim (get_vmm_insn32 t2 high) [
              | none ↦ none
              | some (other, t3) ↦ some (fetched t3 b (low + other % 2 ^ 16 * 2 ^ 16))
            ]
          ])
            t)
  second_half n rounds b0 b low none t lt under g gb le = present (good_fault g gb.even)
  second_half n rounds b0 b low (some high) t lt under g gb le =
      Always-bind (insn_lem t high g) (λ r h. present (
        good_fetched h.0 gb (omega arith) (λ top. absurd (omega arith))
          (λ gt. absurd (omega arith))))

  fetch_halves-GoodFetched :
      (n rounds : ℕ) (b0 b : Block) (t : Target lib W)
      → IsGood map0 t
      → GoodBlock b
      → rounds ≤ n
      → Always (GoodFetched n rounds b0) (fetch_halves t b)
  unfolding fetch_halves
  fetch_halves-GoodFetched n rounds b0 b t g gb le = Always-bind (insn_lem t b.code_ptr g) (λ r h.
      elim (Bool-cases (r.0 % 2 ^ 16 % 4 == 3)) [
        | inl three ↦ rw three (
            Always-bind (address_lem r.1 (size_add (get_pc b) 2) (omega arith) h.0) (λ q h'.
              second_half n rounds b0 b (r.0 % 2 ^ 16) q.0 q.1 (omega arith) (under r.0 three h.1)
                h'.0 gb le))
        | inr short ↦ rw short (
            present (
              good_fetched h.0 gb (omega arith) (λ top. rw (h.1 top) refl)
                (λ gt. absurd (omega arith))))
      ])
    where
      under :
          (full : ℕ)
          → (full % 2 ^ 16 % 4 == 3) ≡ true
          → (last_page ≤ b.code_ptr → full ≡ 0)
          → b.code_ptr < last_page
      under full three zero_top = ground (arith, three, zero_top)

  refill-GoodFetched :
      (n rounds : ℕ) (b0 : Block) (t : Target lib W) (addr : ℕ)
      → addr < 2 ^ 32
      → addr % 2 ≡ 0
      → rounds ≤ n
      → IsGood map0 t
      → Always (GoodFetched n rounds b0) (refill t addr)
  unfolding refill
  refill-GoodFetched n rounds b0 t addr lt ev le g =
      Always-bind (address_lem t addr lt g) (λ r h. after r.0 r.1 h.1 h.0)
    where
      after :
          (o : Option ℕ) (t : Target lib W)
          → IsWord o
          → IsGood map0 t
          → Always (GoodFetched n rounds b0) (
              (elim o as (λ _. Target lib W → Option (Fetched lib W)) [
                | none ↦ λ t'. some (fetch_fault t' addr)
                | some paddr ↦ λ t'.
                    let b = page_block addr paddr in
                    if leb b.code_end b.code_ptr then fetch_halves t' b else fetch_at t' b
              ])
                t)
      after none t word g = present (good_fault g ev)
      after (some paddr) t word g =
          let b = page_block addr paddr in
          let gb = page_block-GoodBlock addr paddr ev lt word in
          Always-if (leb b.code_end b.code_ptr) (fetch_halves-GoodFetched n rounds b0 b t g gb le)
            (fetch_at-GoodFetched n rounds b0 b t g gb (λ gt. absurd (omega arith)))

  pub check_lem : (s : RiscvCpu) → IsCore s → IsCore (check_interrupts s).1
  unfolding check_interrupts
  check_lem s h = elim (Bool-cases (word_and s.mip s.mie == 0)) [
    | inl e ↦ rw e h
    | inr e ↦ rw e (raise_interrupt-IsCore s h)
  ]

  pub fetch-GoodFetched :
      (n rounds : ℕ) (b : Block) (t : Target lib W)
      → IsGood map0 t
      → GoodBlock b
      → Always (GoodFetched n rounds b) (fetch t n rounds b)
  unfolding fetch
  fetch-GoodFetched n rounds b t g gb =
      let pc = get_pc b in
      let t0 = with_pc t pc in
      let g0 = with_pc-IsGood map0 devices t pc gb.even g in
      let s = (check_interrupts t0.core).1 in
      let g1 : IsGood map0 (record t0 { core = s }) =
        recored map0 devices t0 s g0 (check_lem t0.core g0.sound) in
      elim (Bool-cases (leb b.code_end b.code_ptr)) [
        | inl at_end ↦ rw at_end (elim (Bool-cases (leb (n + 1) rounds)) [
          | inl over ↦ rw over (present (good_ending g0))
          | inr more ↦ rw more (
              Always-if (check_interrupts t0.core).0 (present (good_ending g1)) (
                refill-GoodFetched n rounds b _ pc (omega arith) gb.even (ground (arith, more)) g1))
        ])
        | inr inside ↦
            rw inside (
              fetch_at-GoodFetched n rounds b b t g gb
                (λ gt. (ground (arith, inside), omega arith)))
      ]
