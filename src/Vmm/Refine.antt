-- ===== src/Vmm/Refine.antt =====
-- The VMM behaves as a flat memory.
use mathlib.Core.Path.{fun_ext}
use esp32_tinyemu.Prelude.{
  ℕ, ◌*◌, ◌/◌, ◌%◌, ◌≤◌, ◌<◌, ◌≡◌, arith, List, [], ◌∷◌, Option, none, some, Bytes, memcpy,
  size_mod, refl, ◌^◌, ◌∙◌, ap,
}
use native.Mathlib.Nat.{mod-lt}
use esp32_tinyemu.Flat.{Access, read, write, flush, flat_read, flat_write, flat_run, AllWithin}
use esp32_tinyemu.LruCache.NodeList.{Libraries}
use esp32_tinyemu.LruCache.Inv.{lookup-init}
use esp32_tinyemu.PageCache.{page_cache_init}
use esp32_tinyemu.Vmm.{Vmm, VmmHeap, vmm_create, vmm_read, vmm_write, vmm_flush}
use esp32_tinyemu.Vmm.Inv.{IsValid, mem_byte}
use esp32_tinyemu.Vmm.Tlb.{create-IsValid}
use esp32_tinyemu.Vmm.Range.{HoldsPages}
use esp32_tinyemu.Vmm.Read.{vmm_read_lem, Reads}
use esp32_tinyemu.Vmm.Write.{vmm_write_lem, Writes}
use esp32_tinyemu.Vmm.Sync.{vmm_flush_lem}

module _ (lib : Libraries) where
  -- A client's calls in order.
  unfoldable pub run : Vmm lib → List Access → Option (List Bytes × Vmm lib)
  run v [] = some ([], v)
  run v (read addr target len ∷ calls) = elim (vmm_read lib v addr target len) [
    | none ↦ none
    | some (target', v') ↦ elim (run v' calls) [
      | none ↦ none
      | some (outs, v'') ↦ some (target' ∷ outs, v'')
    ]
  ]
  run v (write addr source len ∷ calls) = elim (vmm_write lib v addr source len) [
    | none ↦ none
    | some v' ↦ run v' calls
  ]
  run v (flush ∷ calls) = run (vmm_flush lib v) calls

  module _ (size blocks count : ℕ) where
    -- A run that is over: its buffers and its memory are those of the flat memory.
    pub record Refines (v : Vmm lib) (calls : List Access) (outs : List Bytes) (v' : Vmm lib)
        : Type 0 where
      pub valid : IsValid lib size blocks v'
      pub holds : HoldsPages size count v'
      pub outputs : outs ≡ (flat_run (mem_byte lib size v) calls).0
      pub memory : mem_byte lib size v' ≡ (flat_run (mem_byte lib size v) calls).1

    read_memory :
        {v v' : Vmm lib} (addr : ℕ) (target : Bytes) (len : ℕ) {target' : Bytes}
        → IsValid lib size blocks v
        → Reads lib size blocks count v addr target 0 len target' v'
        → (target' ≡ flat_read (mem_byte lib size v) addr target len)
          × (mem_byte lib size v' ≡ mem_byte lib size v)
    unfolding flat_read memcpy
    read_memory addr target len w r =
        (fun_ext (λ i. ground (arith, r.delivered i)), fun_ext r.memory)

    write_memory :
        {v v' : Vmm lib} (addr : ℕ) (source : Bytes) (len : ℕ)
        → Writes lib size blocks count v addr source 0 len v'
        → mem_byte lib size v' ≡ flat_write (mem_byte lib size v) addr source len
    unfolding flat_write memcpy
    write_memory addr source len r = fun_ext (λ a. ground (arith, r.stored a))

    -- No sequence of reads, writes and flushes within the pages of the memory tells a valid VMM from a
    -- flat memory: every run ends, its reads deliver what the flat memory delivers, and it leaves a
    -- valid VMM that holds the flat memory's bytes.
    pub run-Refines :
        (calls : List Access) {v : Vmm lib}
        → IsValid lib size blocks v
        → HoldsPages size count v
        → AllWithin (count * size) calls
        → (outs : List Bytes) × (v' : Vmm lib) × (run v calls ≡ some (outs, v'))
          × Refines v calls outs v'
    unfolding run flat_run
    run-Refines [] {v} w h within =
        ([], v, refl, record { valid = w; holds = h; outputs = refl; memory = refl })
    run-Refines (read addr target len ∷ calls) {v} w h within =
        let (target', v₁, ran, r) =
          vmm_read_lem lib size blocks count addr target len w h within.0 in
        let (outs, v', again, rest) = run-Refines calls r.follows.valid r.follows.holds within.1 in
        let same = read_memory addr target len w r in
        (
          target' ∷ outs,
          v',
          rw (ran, run) (rw (again, run)),
          record {
            valid = rest.valid;
            holds = rest.holds;
            outputs =
                rw (same.0, ← same.1)
                  (ap (λ os. flat_read (mem_byte lib size v₁) addr target len ∷ os) rest.outputs);
            memory = rw (← same.1) rest.memory;
          },
        )
    run-Refines (write addr source len ∷ calls) {v} w h within =
        let (v₁, ran, r) = vmm_write_lem lib size blocks count addr source len w h within.0 in
        let (outs, v', again, rest) = run-Refines calls r.follows.valid r.follows.holds within.1 in
        let same = write_memory addr source len r in
        (
          outs,
          v',
          rw (ran, run) again,
          record {
            valid = rest.valid;
            holds = rest.holds;
            outputs = rest.outputs ∙ ap (λ m. (flat_run m calls).0) same;
            memory = rest.memory ∙ ap (λ m. (flat_run m calls).1) same;
          },
        )
    run-Refines (flush ∷ calls) {v} w h within =
        let f = λ (a : ℕ).
          vmm_flush_lem lib size blocks count w h (a / size) (a % size) (mod-lt a w.size_pos) in
        let f₀ = f 0 in
        let (outs, v', again, rest) = run-Refines calls f₀.0.valid f₀.0.holds within in
        let same : mem_byte lib size (vmm_flush lib v) ≡ mem_byte lib size v =
          fun_ext (λ a. (f a).1) in
        (
          outs,
          v',
          again,
          record {
            valid = rest.valid;
            holds = rest.holds;
            outputs = rw (← same) rest.outputs;
            memory = rw (← same) rest.memory;
          },
        )

    -- A new VMM is valid, holds the whole pages of its file and reads as zeros everywhere, whatever
    -- malloc left in its memory: for a page size and a number of blocks that are not 0 and fit a
    -- uint16_t, and a number of pages and a file size that fit a size_t.
    pub create_lem :
        (heap : VmmHeap) (maximum_size number : ℕ)
        → 0 < size
        → size < 2 ^ 16
        → 0 < blocks
        → blocks < 2 ^ 16
        → number < size_mod
        → count * size ≤ maximum_size
        → maximum_size < size_mod
        → let v = vmm_create lib heap maximum_size size number blocks in
          IsValid lib size blocks v
          × HoldsPages size count v
          × ((a : ℕ) → mem_byte lib size v a ≡ 0)
    unfolding vmm_create page_cache_init
    create_lem heap maximum_size number p q r s t fits top = (
      create-IsValid lib heap maximum_size size number blocks p q r s t,
      record { addressable = omega arith; stored = omega arith },
      λ a. ground (
        arith,
        lookup-init lib heap.cache_items 1 (a / size),
        lookup-init lib heap.page_cache.cache_items 1 (a / size),
      ),
    )
