-- ===== src/Tests/Caches.antt =====
-- The caches below the VMM at concrete inputs.
use esp32_tinyemu.Prelude.{
  ℕ, ◌+◌, ◌-◌, ◌*◌, ◌≤◌, ◌<◌, ◌≡◌, ◌≢◌, List, [], ◌∷◌, not, ◌==◌, if◌then◌else◌, Bytes, arith,
  length, size_mod,
}
use esp32_tinyemu.DirectCache.{CacheLine, DirectCache, direct_cache_init, direct_cache_set}
use esp32_tinyemu.Himem.{Himem, himem_allocator_init}
use esp32_tinyemu.Himem.Laws as HimemLaws
use esp32_tinyemu.Himem.Laws.{block_byte, himem_read_lem, himem_write_lem}
use esp32_tinyemu.MemoryIndexer.Avl.{MemoryWrapper}
use esp32_tinyemu.LruCache.{
  CacheItem, Cache, lru_cache_init, lru_cache_add, lru_cache_remove, lru_cache_flush_items,
}
use esp32_tinyemu.LruCache.Inv as LruInv
use esp32_tinyemu.LruCache.Inv.{nodes, lookup, init-IsValid as lru-init-IsValid, lookup-init}
use esp32_tinyemu.LruCache.Add.{add-IsValid, add-length}
use esp32_tinyemu.LruCache.Evict.{remove-IsValid, flush_items_lem}
use esp32_tinyemu.PageCache.{
  PageCache, PageCacheHeap, page_cache_init, page_cache_get, page_cache_set,
}
use esp32_tinyemu.PageCache.Inv as PageInv
use esp32_tinyemu.PageCache.Inv.{page_item}
use esp32_tinyemu.PageCache.Find.{
  init-IsValid as page-init-IsValid, page_cache_get_lem, cached_byte,
}
use esp32_tinyemu.PageCache.Set.{page_byte, page_cache_set_lem, page_cache_set-IsValid}
use esp32_tinyemu.Tests.Instance.{libraries}

abbrev lines : ℕ → CacheLine
lines i = record { value = i + 7; key = i }

abbrev table : DirectCache
table = direct_cache_set (direct_cache_init lines 8) 3 70

abbrev container : Bytes
container off = off + 1

abbrev blocks : Himem
blocks = himem_allocator_init container 4 3

blocks-IsValid : HimemLaws.IsValid blocks 4 3
blocks-IsValid = HimemLaws.init-IsValid container 4 3 (omega arith) (omega arith) (omega arith)

abbrev two_keys : List MemoryWrapper
two_keys = record { key = 5; value = 50 } ∷ record { key = 6; value = 60 } ∷ []

abbrev garbage : ℕ → CacheItem
garbage i = record { key = i; value = i + 3; access = 98 }

abbrev no_items : Cache libraries
no_items = lru_cache_init libraries garbage 1

no_items-IsValid : LruInv.IsValid libraries no_items
no_items-IsValid = lru-init-IsValid libraries garbage 1 (omega arith)

abbrev one_item : Cache libraries
one_item = lru_cache_add libraries no_items 5 50

add-IsValid_example : LruInv.IsValid libraries one_item
add-IsValid_example =
    add-IsValid libraries 5 50 no_items-IsValid (lookup-init libraries garbage 1 5) (omega arith)

one_item-IsValid : LruInv.IsValid libraries one_item
one_item-IsValid =
    add-IsValid libraries 5 50 no_items-IsValid (lookup-init libraries garbage 1 5) (omega arith)

one_item-length : length (nodes libraries one_item) ≢ 0
one_item-length = ground (arith, add-length libraries 5 50 no_items-IsValid)

-- A client that keeps the pointers which are flushed.
abbrev log_flush : ℕ → ℕ → List ℕ → List ℕ
log_flush key value flushed = value ∷ flushed

remove-IsValid_example :
    LruInv.IsValid libraries (lru_cache_remove libraries log_flush one_item 5 []).0
remove-IsValid_example = remove-IsValid libraries log_flush 5 [] one_item-IsValid

flush_items_lem_example :
    let (c', _) = lru_cache_flush_items libraries log_flush 3 one_item [] in
    LruInv.IsValid libraries c'
    × (length (nodes libraries c') ≡ length (nodes libraries one_item) - 3)
flush_items_lem_example = flush_items_lem libraries log_flush 3 [] one_item-IsValid

abbrev page_heap : PageCacheHeap
page_heap = record {
  container = container;
  flush_buffer = λ off. 13;
  lines = lines;
  cache_items = garbage;
  items = λ i. record { page_number = i; block_id = i };
}

abbrev no_pages : PageCache libraries
no_pages = page_cache_init libraries page_heap 4 1

no_pages-IsValid : PageInv.IsValid libraries 4 1 no_pages
no_pages-IsValid =
    page-init-IsValid libraries page_heap 4 1 (omega arith) (omega arith) (omega arith)
      (omega arith)

-- A client that keeps the bytes of every page by its number.
abbrev keep_page : ℕ → Bytes → (ℕ → Bytes) → ℕ → Bytes
keep_page k buf pages m = if k == m then buf else pages m

abbrev kept_byte : (ℕ → Bytes) → ℕ → ℕ → ℕ
kept_byte pages k off = pages k off

abbrev blank : ℕ → Bytes
blank k off = 0

kept_law :
    (k m off : ℕ) (b : Bytes) (s : ℕ → Bytes)
    → k * 4 + 4 ≤ size_mod
    → off < 4
    → kept_byte (keep_page k b s) m off ≡ (if k == m then b off else kept_byte s m off)
kept_law k m off b s h lt = ground arith

abbrev one_page : PageCache libraries
one_page = (page_cache_set libraries keep_page no_pages 7 container blank).0

one_page-IsValid : PageInv.IsValid libraries 4 1 one_page
one_page-IsValid =
    page_cache_set-IsValid libraries keep_page kept_byte 4 kept_law 7 container blank
      no_pages-IsValid (omega arith)

page_cache_set-IsValid_example : PageInv.IsValid libraries 4 1 one_page
page_cache_set-IsValid_example =
    page_cache_set-IsValid libraries keep_page kept_byte 4 kept_law 7 container blank
      no_pages-IsValid (omega arith)

-- Page 8 takes the only block, so that page 7 goes to the client.
page_cache_set_lem_example :
    let (pc', s') = page_cache_set libraries keep_page one_page 8 container blank in
    page_byte libraries pc' 4 (kept_byte s') 7 2
    ≡ (if 8 == 7 then container 2 else page_byte libraries one_page 4 (kept_byte blank) 7 2)
page_cache_set_lem_example =
    page_cache_set_lem libraries keep_page kept_byte 4 kept_law 8 7 2 container blank
      one_page-IsValid (omega arith) (omega arith)

page_cache_get_lem_example :
    let (found, buf, pc') = page_cache_get libraries one_page 7 container in
    (found ≡ not (page_item libraries one_page 7 == 0))
    × (buf 2 ≡ (
        if page_item libraries one_page 7 == 0
        then container 2
        else cached_byte libraries one_page 4 7 2))
    × (page_item libraries pc' 8 ≡ page_item libraries one_page 8)
    × (cached_byte libraries pc' 4 8 2 ≡ cached_byte libraries one_page 4 8 2)
page_cache_get_lem_example =
    page_cache_get_lem libraries 7 8 2 container one_page-IsValid (omega arith)
