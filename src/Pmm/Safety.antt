-- ===== src/Pmm/Safety.antt =====
-- Whole calls of the page allocator: the invariant, who owns which page, round trips.
use apopt_os.Base.{
  ℕ, ◌+◌, ◌*◌, ◌%◌, ◌^◌, ◌<◌, ◌≤◌, ◌≡◌, ◌⊎◌, true, false, ◌==◌, if◌then◌else◌, arith, inl, inr,
  page_to_bit, page_size,
}
use apopt_os.Bitmap.{is_set}
use apopt_os.Pmm.{Pmm, claim, pmm_alloc, pmm_free}
use apopt_os.Pmm.Marks.{
  in_pages, set_range-IsValid, unset_range-IsValid, size-set_range, size-unset_range,
  is_set-set_range, is_set-unset_range, is_set-set_range_mono,
}
use apopt_os.Pmm.Alloc.{IsValid, Claimed, Refused, pmm_alloc_lem}

pub claim-IsValid : {p : Pmm} (k count : ℕ) → IsValid p → IsValid (claim p k count)
unfolding claim
claim-IsValid {p} k count v = record {
  bits = set_range-IsValid p.bitmap k count 0 v.bits;
  covered = omega (arith, v.covered, size-set_range p.bitmap k count 0);
  small = v.small;
  null_used = is_set-set_range_mono p.bitmap k count 0 0 v.bits v.null_used;
}

-- Whatever pmm_alloc returns for 1 to 4096 pages on a valid state, the state after it is valid.
pub pmm_alloc-IsValid :
    (p : Pmm) (count : ℕ) → IsValid p → 0 < count → count ≤ 4096 → IsValid (pmm_alloc p count).0
pmm_alloc-IsValid p count v pos few = by_case (pmm_alloc_lem p count v pos few)
  where
    by_case :
        Claimed p count (pmm_alloc p count) ⊎ Refused p (pmm_alloc p count)
        → IsValid (pmm_alloc p count).0
    by_case (inl (k, e, lo, hi, free, used, some_used)) = rw e (claim-IsValid k count v)
    by_case (inr (e, why)) = rw e v

-- pmm_free of pages from page 1 on, all numbered below 2 ^ 31, keeps the allocator valid.
pub pmm_free-IsValid :
    (p : Pmm) (pointer count : ℕ)
    → IsValid p
    → page_size ≤ pointer
    → page_to_bit pointer + count ≤ 2 ^ 31
    → IsValid (pmm_free p pointer count)
unfolding pmm_free
pmm_free-IsValid p pointer count v not_null fits = record {
  bits = unset_range-IsValid p.bitmap (page_to_bit pointer) count 0 v.bits;
  covered = omega (arith, v.covered, size-unset_range p.bitmap (page_to_bit pointer) count 0);
  small = v.small;
  null_used =
      ground
        (arith, is_set-unset_range p.bitmap (page_to_bit pointer) count 0 0 v.bits, v.null_used);
}

-- The bits after a claim that lies in the map: the claimed pages are used, all others as before.
pub is_set-claim :
    (p : Pmm) (k count j : ℕ)
    → IsValid p
    → k + count ≤ 8 * p.bitmap.size
    → k + count ≤ 2 ^ 31
    → is_set (claim p k count).bitmap j ≡ (if in_pages k count j then true else is_set p.bitmap j)
unfolding claim
is_set-claim p k count j v inside fits =
    ground (arith, is_set-set_range p.bitmap k count 0 j v.bits)

-- On a valid state, pmm_free of pages numbered below 2 ^ 31 clears exactly the bits of these
-- pages.
pub is_set-pmm_free :
    (p : Pmm) (pointer count j : ℕ)
    → IsValid p
    → page_to_bit pointer + count ≤ 2 ^ 31
    → is_set (pmm_free p pointer count).bitmap j
      ≡ (if in_pages (page_to_bit pointer) count j then false else is_set p.bitmap j)
unfolding pmm_free
is_set-pmm_free p pointer count j v fits =
    ground (arith, is_set-unset_range p.bitmap (page_to_bit pointer) count 0 j v.bits)

-- On a valid state, a page other than null that pmm_alloc returns for one page was free, starts
-- at a multiple of the page size below the top of memory, is in use afterwards, and no other
-- page's bit changes.
pub pmm_alloc_one :
    (p : Pmm) {q : Pmm} {a : ℕ}
    → IsValid p
    → pmm_alloc p 1 ≡ (q, a)
    → 0 < a
    → (a % page_size ≡ 0)
      × (a < p.highest_page_top)
      × (is_set p.bitmap (page_to_bit a) ≡ false)
      × ((j : ℕ) → is_set q.bitmap j ≡ (if page_to_bit a == j then true else is_set p.bitmap j))
pmm_alloc_one p {q} {a} v e pos = by_case (pmm_alloc_lem p 1 v (omega arith) (omega arith))
  where
    by_case :
        Claimed p 1 (pmm_alloc p 1) ⊎ Refused p (pmm_alloc p 1)
        → (a % page_size ≡ 0)
          × (a < p.highest_page_top)
          × (is_set p.bitmap (page_to_bit a) ≡ false)
          × ((j : ℕ) → is_set q.bitmap j ≡ (if page_to_bit a == j then true else is_set p.bitmap j))
    by_case (inr (r, why)) = absurd (ground arith)
    by_case (inl (k, r, lo, hi, free, used, some_used)) =
        let ea : a ≡ k * 4096 = ground arith in
        let eq : q ≡ claim p k 1 = ground arith in
        let ek : page_to_bit a ≡ k = omega arith in
        let small = v.small in
        let covered = v.covered in
        (
          omega arith,
          omega arith,
          rw ek free,
          λ j. rw (ek, eq) (ground (arith, is_set-claim p k 1 j v)),
        )
