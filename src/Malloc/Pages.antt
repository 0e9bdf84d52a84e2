-- ===== src/Malloc/Pages.antt =====
-- malloc and free of src/kernel/libk/malloc/malloc.c for a block of one page.
use apopt_os.Base.{
  ℕ, ◌+◌, ◌%◌, ◌^◌, ◌<◌, ◌≤◌, ◌≡◌, ◌≢◌, ◌∙◌, refl, true, false, u64, leb, ◌==◌, page_size,
  heap_start_addr, arith, inl, inr,
}
use apopt_os.Bitmap.{is_set}
use apopt_os.Str.Laws.{within}
use apopt_os.Pmm.{pmm_alloc, pmm_free}
use apopt_os.Pmm.Safety.{pmm_alloc_one}
use apopt_os.Pmm.Ranges.{pmm_free-pmm_alloc}
use apopt_os.Pmm.Supply.{free_pages, IsSound, pmm_alloc-free_pages}
use apopt_os.Slab.Heap.{Heap, put}
use apopt_os.Malloc.Sizes.{round_alloc_size}
use apopt_os.Malloc.Ops.{State, returns, to_user, finish, allocz_pages, clear_pages, malloc, free}
use apopt_os.Malloc.Blocks.{to_block-to_user}

round_page : (size : ℕ) → 510 < size → size ≤ 4094 → round_alloc_size (u64 (size + 2)) ≡ page_size
unfolding round_alloc_size
round_page size lo hi =
    let eu : u64 (size + 2) ≡ size + 2 = omega arith in
    let big : leb (size + 2) 512 ≡ false = ground arith in rw (eu, big) (omega arith)

to_user-pos : (p : ℕ) → p < 2 ^ 43 → to_user p ≡ p + 2 + heap_start_addr
unfolding to_user
to_user-pos p small = omega arith

-- The state after malloc of a block of the page `p`.
abbrev with_page_block : State → ℕ → Heap → State
with_page_block s p h = record (clear_pages s p 1) {
  heap = h;
  metadata = put (clear_pages s p 1).metadata p 1;
}

malloc_page :
    (fuel : ℕ) (s : State) (size : ℕ)
    → 510 < size
    → size ≤ 4094
    → malloc fuel s size
      ≡ finish
          (clear_pages s (allocz_pages s.heap 1).0 1)
          (allocz_pages s.heap 1).1
          (allocz_pages s.heap 1).0
          1
unfolding malloc
malloc_page fuel s size lo hi = rw (round_page size lo hi) refl

finish_page :
    (s : State) (h : Heap) (p : ℕ)
    → 0 < p
    → finish (clear_pages s p 1) h p 1 ≡ returns (to_user p) (with_page_block s p h)
unfolding finish
finish_page s h p pos = let ne : (p == 0) ≡ false = ground arith in rw ne refl

-- free of a block at the start of a page gives back the pages that its metadata counts.
free_page :
    (fuel : ℕ) (s : State) (p : ℕ) (h : Heap)
    → p < 2 ^ 43
    → p % page_size ≡ 0
    → free fuel (with_page_block s p h) (to_user p)
      ≡ returns 0 (record (with_page_block s p h) { heap = record h { pmm = pmm_free h.pmm p 1 } })
unfolding free
free_page fuel s p h small al =
    let ub = to_user-pos p small in
    let not_null : (to_user p == 0) ≡ false = ground (arith, ub) in
    let aligned : (p % 4096 == 0) ≡ true = ground (arith, al) in
    let self : (p == p) ≡ true = ground arith in
    rw (to_block-to_user p (omega (arith, small)), not_null, aligned, self) refl

block_bytes :
    (s : State) (p x : ℕ) (h : Heap)
    → p < 2 ^ 43
    → x < 4094
    → (with_page_block s p h).bytes (to_user p + x) ≡ 0
unfolding clear_pages
block_bytes s p x h small lt =
    let ub = to_user-pos p small in
    let start : u64 (p + heap_start_addr) ≡ p + heap_start_addr = omega arith in
    let inside : within (p + heap_start_addr) page_size (p + 2 + heap_start_addr + x) ≡ true =
      ground arith in
    rw (ub, start, inside) refl

-- On a sound page frame allocator with a free page, for a size of 511 to 4094 bytes: malloc takes one
-- page and returns an address at which so many bytes read as zeros; free of that address returns and
-- restores the allocator, each page as free or used as it was, and the page counter.
pub free-malloc_page :
    (fuel : ℕ) (s : State) (size : ℕ)
    → 510 < size
    → size ≤ 4094
    → IsSound s.heap.pmm
    → 0 < free_pages s.heap.pmm
    → (p : ℕ) × (t : State) × (u : State) × (malloc fuel s size ≡ returns (to_user p) t)
      × ((free fuel t (to_user p) ≡ returns 0 u)
          × (to_user p ≢ 0)
          × (free_pages t.heap.pmm + 1 ≡ free_pages s.heap.pmm)
          × ((x : ℕ) → x < size → t.bytes (to_user p + x) ≡ 0)
          × ((j : ℕ) → is_set u.heap.pmm.bitmap j ≡ is_set s.heap.pmm.bitmap j)
          × (u.heap.pmm.used_pages_count ≡ s.heap.pmm.used_pages_count))
unfolding allocz_pages
free-malloc_page fuel s size lo hi sound some_left = elim (pmm_alloc-free_pages s.heap.pmm sound) [
  | inl (r, none_left) ↦ absurd (omega (arith, some_left, none_left))
  | inr (pos, less, count, same) ↦
      let (q, p) = pmm_alloc s.heap.pmm 1 in
      let (al, low, free, bits) = pmm_alloc_one s.heap.pmm sound.pages refl pos in
      let small : p < 2 ^ 43 = omega (arith, low, sound.pages.small) in
      let h = (allocz_pages s.heap 1).1 in
      let (back, counter) =
        pmm_free-pmm_alloc s.heap.pmm sound.pages (omega (arith, sound.counted)) refl pos in
      (
        p,
        with_page_block s p h,
        record (with_page_block s p h) { heap = record h { pmm = pmm_free h.pmm p 1 } },
        malloc_page fuel s size lo hi ∙ finish_page s h p pos,
        (
          free_page fuel s p h small al,
          λ null. omega (arith, to_user-pos p small, null),
          less,
          λ x lt. block_bytes s p x h small (omega arith),
          back,
          counter,
        ),
      )
]
