-- ===== src/Tests/Memory.antt =====
-- The VMM with pages of four bytes, of which one may be resident and one is cached: every second
-- access evicts a page to the page cache or from there to the file.
use esp32_tinyemu.Prelude.{
  ℕ, ◌+◌, ◌≤◌, ◌≡◌, ◌≢◌, List, [], ◌∷◌, Option, some, Bytes, arith, false, map, max, length,
}
use esp32_tinyemu.Flat.{Access, read, write, flush}
use esp32_tinyemu.Tests.Instance.{libraries}
use esp32_tinyemu.Vmm.{Vmm, VmmHeap, vmm_create, vmm_read, vmm_write, vmm_flush, get_page}
use esp32_tinyemu.Vmm.Inv.{IsValid, mem_byte, page_view, resident}
use esp32_tinyemu.LruCache.Inv.{nodes}
use esp32_tinyemu.Vmm.BackingStore.{store_byte}
use esp32_tinyemu.Vmm.GetPage.{get_page_lem}
use esp32_tinyemu.Vmm.Range.{HoldsPages}
use esp32_tinyemu.Vmm.Read.{Reads, vmm_read_lem, Follows}
use esp32_tinyemu.Vmm.Write.{Writes, vmm_write_lem}
use esp32_tinyemu.Vmm.Sync.{vmm_flush_lem}
use esp32_tinyemu.Vmm.Refine.{run, Refines, run-Refines, create_lem}

-- Memory as malloc leaves it: not zeros.
abbrev junk : VmmHeap
junk = record {
  lines = λ i. record { value = i + 7; key = i };
  cache_items = λ i. record { key = i; value = i + 3; access = 99 };
  pages = λ p. record {
    page_number = p;
    page_address = 5;
    page_cache = λ off. 170 + off;
    dirty = false;
  };
  page_cache = record {
    container = λ off. off + 1;
    flush_buffer = λ off. 13;
    lines = λ i. record { value = i + 9; key = i };
    cache_items = λ i. record { key = i; value = i + 3; access = 99 };
    items = λ i. record { page_number = i; block_id = i };
  };
}

abbrev pub small : Vmm libraries
small = vmm_create libraries junk 16 4 1 1

create_lem_example :
    IsValid libraries 4 1 small
    × HoldsPages 4 4 small
    × ((a : ℕ) → mem_byte libraries 4 small a ≡ 0)
create_lem_example =
    create_lem libraries 4 1 4 junk 16 1 (omega arith) (omega arith) (omega arith) (omega arith)
      (omega arith) (omega arith) (omega arith)

pub small-IsValid :
    IsValid libraries 4 1 small
    × HoldsPages 4 4 small
    × ((a : ℕ) → mem_byte libraries 4 small a ≡ 0)
small-IsValid =
    create_lem libraries 4 1 4 junk 16 1 (omega arith) (omega arith) (omega arith) (omega arith)
      (omega arith) (omega arith) (omega arith)

abbrev letters : Bytes
letters i = 65 + i

-- A write across three pages, which are then read back across the evictions.
abbrev calls : List Access
calls = write 2 letters 8 ∷ flush ∷ read 13 (λ i. 1) 2 ∷ read 3 (λ i. 0) 6 ∷ []

run-Refines_example :
    (outs : List Bytes) × (v' : Vmm libraries) × (run libraries small calls ≡ some (outs, v'))
    × Refines libraries 4 1 4 small calls outs v'
run-Refines_example =
    run-Refines libraries 4 1 4 calls small-IsValid.0 small-IsValid.1 (omega arith)

vmm_read_lem_example :
    (target' : Bytes) × (v' : Vmm libraries) × (vmm_read libraries small 3 letters 7
      ≡ some (target', v'))
    × Reads libraries 4 1 4 small 3 letters 0 7 target' v'
vmm_read_lem_example =
    vmm_read_lem libraries 4 1 4 3 letters 7 small-IsValid.0 small-IsValid.1 (omega arith)

vmm_write_lem_example :
    (v' : Vmm libraries) × (vmm_write libraries small 3 letters 7 ≡ some v')
    × Writes libraries 4 1 4 small 3 letters 0 7 v'
vmm_write_lem_example =
    vmm_write_lem libraries 4 1 4 3 letters 7 small-IsValid.0 small-IsValid.1 (omega arith)

written :
    (v' : Vmm libraries) × (vmm_write libraries small 3 letters 7 ≡ some v')
    × Writes libraries 4 1 4 small 3 letters 0 7 v'
written = vmm_write_lem libraries 4 1 4 3 letters 7 small-IsValid.0 small-IsValid.1 (omega arith)

vmm_flush_lem_example :
    Follows libraries 4 1 4 written.0 (vmm_flush libraries written.0)
    × (page_view libraries 4 (vmm_flush libraries written.0) 1 2
        ≡ page_view libraries 4 written.0 1 2)
    × (store_byte libraries 4 (vmm_flush libraries written.0).backing 1 2
        ≡ page_view libraries 4 written.0 1 2)
vmm_flush_lem_example =
    vmm_flush_lem libraries 4 1 4 written.2.follows.valid written.2.follows.holds 1 2 (omega arith)

get_page_lem_example :
    let (p, v') = get_page libraries small 6 in
    IsValid libraries 4 1 v'
    × (p ≢ 0)
    × (resident libraries v' 1 ≡ p)
    × ((v'.backing.pages p).page_address ≡ 4)
    × (length (nodes libraries v'.lru_cache) ≤ max 1 1)
    × (mem_byte libraries 4 v' 9 ≡ mem_byte libraries 4 small 9)
unfolding vmm_create
get_page_lem_example = get_page_lem libraries 6 9 small-IsValid.0 (omega arith) (omega arith)

-- The bytes 3 to 8 of the buffer of the last read.
abbrev read_back : Option (List Bytes × Vmm libraries) → List ℕ
read_back (some (none_seen ∷ out ∷ rest, v)) = map out (3 ∷ 2 ∷ 1 ∷ 0 ∷ 4 ∷ 5 ∷ [])
read_back other = []

reads_run : List ℕ
reads_run = read_back (run libraries small calls)
