-- ===== src/Malloc/Resize.antt =====
-- realloc: which blocks it keeps, and what it copies.
use apopt_os.Base.{
  ℕ, ◌+◌, ◌/◌, ◌%◌, ◌^◌, ◌<◌, ◌≤◌, ◌≡◌, ◌≢◌, inl, inr, Bool, true, false, refl, ltb, leb, ◌==◌,
  ==_iff, page_size, ◌&&◌, all_below, all_below_sound, arith, Bool-cases,
}
use native.Mathlib.Nat.{le_trans}
use apopt_os.Str.{memcpy, memcpy_from}
use apopt_os.Pmm.{pmm_free}
use apopt_os.Malloc.Sizes.{next_power_of_two, round_alloc_size}
use apopt_os.Malloc.Ops.{State, returns, to_block, malloc, free, realloc, old_size_of, move_block}
use apopt_os.Malloc.Rounding.{
  class_size, round_alloc_size_small, round_alloc_size_large, slab_cache_index_to_size-class,
}

-- A block in cache `i` is kept, at its address and with nothing changed, by every new size that
-- rounds to the size of that cache, also by one that leaves no room for the two bytes of metadata.
pub realloc_keeps :
    (fuel : ℕ) (s : State) (q new_size i : ℕ)
    → 0 < q
    → 0 < new_size
    → i < 6
    → to_block q % page_size ≢ 0
    → s.metadata (to_block q) ≡ i
    → round_alloc_size new_size ≡ class_size i
    → realloc fuel s q new_size ≡ returns q s
unfolding realloc old_size_of
realloc_keeps fuel s q n i pq pn lt unaligned em er =
    let nq : (q == 0) ≡ false = ground arith in
    let nn : (n == 0) ≡ false = ground arith in
    let na : (to_block q % 4096 == 0) ≡ false = ground arith in
    let same : (class_size i == class_size i) ≡ true = (==_iff _ _).1 refl in
    rw (nq, nn, na, em, slab_cache_index_to_size-class i lt, er, same)

abbrev class_row : ℕ → Bool
class_row i =
    round_alloc_size (class_size i) == class_size i
    && ltb 0 (class_size i)
    && round_alloc_size (class_size i + 2) == class_size (i + 1)

class_table : all_below 5 class_row ≡ true
unfolding all_below round_alloc_size next_power_of_two
class_table = refl

class_rounds : (i : ℕ) → i < 5 → class_row i ≡ true
class_rounds i lt = all_below_sound 5 class_row i class_table lt

five : 5 ≤ 6
five = omega arith

-- realloc of a block in one of the first five caches to the whole size of the cache keeps the
-- block and changes nothing, although the bytes behind its address are two fewer than that and
-- malloc rounds this size, with its metadata, to the next cache size.
pub realloc_too_small :
    (fuel : ℕ) (s : State) (q i : ℕ)
    → 0 < q
    → i < 5
    → to_block q % page_size ≢ 0
    → s.metadata (to_block q) ≡ i
    → (realloc fuel s q (class_size i) ≡ returns q s)
      × (round_alloc_size (class_size i + 2) ≡ class_size (i + 1))
realloc_too_small fuel s q i pq lt unaligned em =
    let rounds : round_alloc_size (class_size i) ≡ class_size i =
      ground (arith, class_rounds i lt) in
    let pos : 0 < class_size i = ground (arith, class_rounds i lt) in
    (
      realloc_keeps fuel s q (class_size i) i pq pos (le_trans lt five) unaligned em rounds,
      ground (arith, class_rounds i lt),
    )

-- A new size of at least one byte is not rounded to 0.
round-pos : (n : ℕ) → 0 < n → n + page_size ≤ 2 ^ 64 → 0 < round_alloc_size n
round-pos n pos fits = elim (Bool-cases (leb n 512)) [
  | inl small ↦ let (i, lt, e, le, least) = round_alloc_size_small n (ground arith) in omega arith
  | inr large ↦ let (aligned, le, lt) = round_alloc_size_large n (ground arith) fits in omega arith
]

-- A page block of fewer than 4096 pages for which malloc finds a new block is moved to it, and
-- nothing of it is copied: memory is as malloc left it, apart from the old pages, which are
-- freed.
pub realloc_pages_copies_nothing :
    (fuel : ℕ) (s : State) (q n w : ℕ) {t : State}
    → 0 < q
    → 0 < n
    → n + page_size ≤ 2 ^ 64
    → to_block q % page_size ≡ 0
    → s.metadata (to_block q) < 4096
    → malloc fuel s n ≡ returns w t
    → 0 < w
    → realloc fuel s q n
      ≡ returns w (record t {
        heap = record (t.heap) { pmm = pmm_free t.heap.pmm (to_block q) (t.metadata (to_block q)) };
      })
unfolding realloc old_size_of move_block free memcpy memcpy_from
realloc_pages_copies_nothing fuel s q n w pq pn fits aligned few em pw =
    let nq : (q == 0) ≡ false = ground arith in
    let nn : (n == 0) ≡ false = ground arith in
    let nw : (w == 0) ≡ false = ground arith in
    let al : (to_block q % 4096 == 0) ≡ true = ground arith in
    let e0 : s.metadata (to_block q) / page_size ≡ 0 = omega arith in
    let pos = round-pos n pn fits in
    let moved : (0 == round_alloc_size n) ≡ false = ground arith in
    let none_less : ltb (round_alloc_size n) 0 ≡ false = ground arith in
    rw (nq, nn, al, e0, moved, em, nw, e0, none_less, nq, al)
