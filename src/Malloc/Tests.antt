-- ===== src/Malloc/Tests.antt =====
-- malloc, free and realloc on a cache of one slab, the start of the heap, and sizes to round.
use apopt_os.Base.{inr, ℕ, some, ◌+◌, ◌%◌, ◌<◌, ◌≤◌, ◌≡◌, ◌≢◌, refl, arith, page_size}
use apopt_os.Pmm.{pmm_free}
use apopt_os.Pmm.Tests.{first_page}
use apopt_os.Slab.Heap.{put}
use apopt_os.Slab.Tests.{one_slab, empty_heap}
use apopt_os.Pmm.Supply.{free_pages, IsSound}
use apopt_os.Pmm.Spare.{one_used, one_used-free_pages, one_used-IsSound}
use apopt_os.Bitmap.{is_set}
use apopt_os.Malloc.Pages.{free-malloc_page}
use apopt_os.Malloc.Init.{Serves, malloc_heap_init-Serves}
use apopt_os.Malloc.Sizes.{slab_cache_index_to_size, round_alloc_size}
use apopt_os.Malloc.Ops.{
  malloc_heap_init, State, returns, to_user, to_block, finish, allocz_pages, clear_pages, malloc,
  free, realloc,
}
use apopt_os.Malloc.Rounding.{class_size}
use apopt_os.Malloc.Blocks.{free-malloc}
use apopt_os.Malloc.Resize.{realloc_too_small, realloc_pages_copies_nothing}

abbrev one_cache : State
one_cache = record { heap = one_slab; slab_caches = λ _. 100; metadata = λ _. 2; bytes = λ _. 0 }

unwrapped : (to_user 1000 ≢ 0) × (to_block (to_user 1000) ≡ 1000)
unfolding to_user to_block
unwrapped = (omega arith, refl)

free-malloc_example :
    (t u : State) × (malloc 5 one_cache 50 ≡ returns (to_user 1000) t)
    × ((free 5 t (to_user 1000) ≡ returns 0 u)
        × (50 + 2 ≤ (one_slab.caches 100).slab_size)
        × ((t.heap.slabs 200).freelist_head ≡ (one_slab.bufctls 1000).next)
        × ((x : ℕ) → u.heap.slabs x ≡ one_slab.slabs x)
        × ((u.heap.bufctls 1000).next ≡ (one_slab.bufctls 1000).next)
        × ((x : ℕ) → x ≢ 1000 → u.heap.bufctls x ≡ one_slab.bufctls x)
        × (u.heap.pmm ≡ one_slab.pmm))
free-malloc_example =
    free-malloc 4 one_cache 50 2 (omega arith) (omega arith) (inr (omega arith)) (omega arith) refl
      (omega arith) (omega arith) (omega arith) unwrapped.0 (omega arith) (omega arith)
      (omega arith) (omega arith)

realloc_too_small_example :
    (realloc 5 one_cache (to_user 1000) (class_size 2) ≡ returns (to_user 1000) one_cache)
    × (round_alloc_size (class_size 2 + 2) ≡ class_size (2 + 1))
realloc_too_small_example =
    realloc_too_small 5 one_cache (to_user 1000) 2 user_pos (omega arith) off_page refl
  where
    user_pos : 0 < to_user 1000
    user_pos = omega (arith, unwrapped.0)

    off_page : to_block (to_user 1000) % page_size ≢ 0
    off_page = rw unwrapped.1 (omega arith)

-- A free page, and a block of two pages at the second one.
abbrev one_page : State
one_page = record { heap = empty_heap; slab_caches = λ _. 0; metadata = λ _. 2; bytes = λ _. 9 }

rounds_600 : round_alloc_size 602 ≡ page_size
unfolding round_alloc_size
rounds_600 = refl

abbrev after_malloc : State
after_malloc = record (clear_pages one_page page_size 1) {
  heap = (allocz_pages empty_heap 1).1;
  metadata = put (clear_pages one_page page_size 1).metadata page_size 1;
}

taken_page : malloc 5 one_page 600 ≡ returns (to_user page_size) after_malloc
unfolding malloc allocz_pages finish
taken_page = rw (rounds_600, first_page) refl

block_user : (0 < to_user 8192) × (to_block (to_user 8192) ≡ 8192) × (0 < to_user page_size)
unfolding to_user to_block
block_user = (omega arith, refl, omega arith)

realloc_pages_copies_nothing_example :
    realloc 5 one_page (to_user 8192) 600
    ≡ returns (to_user page_size) (record after_malloc {
      heap = record (after_malloc.heap) {
        pmm =
            pmm_free after_malloc.heap.pmm
              (to_block (to_user 8192))
              (after_malloc.metadata (to_block (to_user 8192)));
      };
    })
realloc_pages_copies_nothing_example =
    realloc_pages_copies_nothing 5 one_page (to_user 8192) 600 (to_user page_size) block_user.0
      (omega arith) (omega arith) (rw block_user.1 (omega arith)) (omega arith) taken_page
      block_user.2

-- Sixteen pages, of which one is in use.
abbrev fifteen_pages : State
fifteen_pages = record {
  heap = record empty_heap { pmm = one_used 2 };
  slab_caches = λ _. 0;
  metadata = λ _. 0;
  bytes = λ _. 0;
}

malloc_heap_init-Serves_example :
    (t : State) × (malloc_heap_init fifteen_pages ≡ returns 0 t)
    × (IsSound t.heap.pmm
        × (free_pages t.heap.pmm + 12 ≡ free_pages (one_used 2))
        × ((i size : ℕ) → slab_cache_index_to_size i ≡ some size → Serves t i size))
malloc_heap_init-Serves_example =
    malloc_heap_init-Serves fifteen_pages (one_used-IsSound 1 (omega arith))
      (omega (arith, one_used-free_pages 1))

free-malloc_page_example :
    (p : ℕ) × (t : State) × (u : State) × (malloc 5 fifteen_pages 1000 ≡ returns (to_user p) t)
    × ((free 5 t (to_user p) ≡ returns 0 u)
        × (to_user p ≢ 0)
        × (free_pages t.heap.pmm + 1 ≡ free_pages (one_used 2))
        × ((x : ℕ) → x < 1000 → t.bytes (to_user p + x) ≡ 0)
        × ((j : ℕ) → is_set u.heap.pmm.bitmap j ≡ is_set (one_used 2).bitmap j)
        × (u.heap.pmm.used_pages_count ≡ (one_used 2).used_pages_count))
free-malloc_page_example =
    free-malloc_page 5 fifteen_pages 1000 (omega arith) (omega arith)
      (one_used-IsSound 1 (omega arith)) (omega (arith, one_used-free_pages 1))
