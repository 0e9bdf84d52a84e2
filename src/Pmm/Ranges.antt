-- ===== src/Pmm/Ranges.antt =====
-- Several calls of the page allocator: distinct pages, round trips, ranges, exhaustion.
use apopt_os.Base.{
  refl, Bool-cases, leb, ltb, ◌&&◌, ◌%◌, ℕ, ◌+◌, ◌*◌, ◌^◌, ◌<◌, ◌≤◌, ◌≡◌, ◌≢◌, ◌⊎◌, true, false, ap,
  if◌then◌else◌, arith, inl, inr, page_to_bit, page_size,
}
use apopt_os.Bitmap.{is_set}
use apopt_os.Str.{Memory}
use apopt_os.Str.Laws.{within, memset_lem}
use apopt_os.Pmm.{Pmm, claim, pmm_alloc, pmm_allocz, pmm_free}
use apopt_os.Pmm.Find.{AllUsed}
use apopt_os.Pmm.Alloc.{IsValid, Claimed, Refused, pmm_alloc_lem}
use apopt_os.Pmm.Safety.{is_set-claim, pmm_alloc-IsValid, is_set-pmm_free, pmm_alloc_one}

-- Two pages that are allocated in a row from a valid state, neither of them null, are different.
pub pmm_alloc-pmm_alloc-ne :
    (p : Pmm) {q r : Pmm} {a b : ℕ}
    → IsValid p
    → pmm_alloc p 1 ≡ (q, a)
    → 0 < a
    → pmm_alloc q 1 ≡ (r, b)
    → 0 < b
    → a ≢ b
pmm_alloc-pmm_alloc-ne p {q} {r} {a} {b} v ea pa eb pb same =
    let vq : IsValid q =
      rw (ap (λ (t : Pmm × ℕ). t.0) ea) at (pmm_alloc-IsValid p 1 v (omega arith) (omega arith)) in
    let (d, e, free_b, f) = pmm_alloc_one q vq eb pb in
    let (g, h, free_a, changes) = pmm_alloc_one p v ea pa in
    let used_a : is_set q.bitmap (page_to_bit a) ≡ true = ground (arith, changes (page_to_bit a)) in
    let free_a' : is_set q.bitmap (page_to_bit a) ≡ false = rw same free_b in cc

-- Freeing the page that was just allocated, from a valid state whose counter is a 64-bit number,
-- brings back every bit and the page counter.
pub pmm_free-pmm_alloc :
    (p : Pmm) {q : Pmm} {a : ℕ}
    → IsValid p
    → p.used_pages_count < 2 ^ 64
    → pmm_alloc p 1 ≡ (q, a)
    → 0 < a
    → ((j : ℕ) → is_set (pmm_free q a 1).bitmap j ≡ is_set p.bitmap j)
      × ((pmm_free q a 1).used_pages_count ≡ p.used_pages_count)
pmm_free-pmm_alloc p {q} {a} v small ea pa =
    let vq : IsValid q =
      rw (ap (λ (t : Pmm × ℕ). t.0) ea) at (pmm_alloc-IsValid p 1 v (omega arith) (omega arith)) in
    let (d, below, free, changes) = pmm_alloc_one p v ea pa in
    let top = v.small in
    (
      (λ j. ground (arith, changes j, is_set-pmm_free q a 1 j vq)),
      counts (pmm_alloc_lem p 1 v (omega arith) (omega arith)),
    )
  where
    counts :
        Claimed p 1 (pmm_alloc p 1) ⊎ Refused p (pmm_alloc p 1)
        → (pmm_free q a 1).used_pages_count ≡ p.used_pages_count
    counts (inr (r, why)) = absurd (ground arith)
    counts (inl (k, r, lo, hi, free, used, some_used)) =
        let eq : q ≡ claim p k 1 = ground arith in rw eq (unfold pmm_free claim in omega arith)

-- The first free page `k` is not page 0, and the call's range from it on ends in memory: it is
-- returned, its pages are in use afterwards and all others as before, and the counter grows by their
-- number (modulo 2 ^ 64).
pub record Marked (p : Pmm) (count k : ℕ) (r : Pmm × ℕ) : Type 0 where
  pub pointer : r.1 ≡ k * 4096
  pub bits :
      (j : ℕ)
      → is_set r.0.bitmap j ≡ (if leb k j && ltb j (k + count) then true else is_set p.bitmap j)
  pub counter : r.0.used_pages_count ≡ (p.used_pages_count + count) % 2 ^ 64
  pub top : r.0.highest_page_top ≡ p.highest_page_top

abbrev pub FirstFree : Pmm → ℕ → Type 0
FirstFree p k =
    (0 < k)
    × (k < page_to_bit p.highest_page_top)
    × (is_set p.bitmap k ≡ false)
    × AllUsed p.bitmap 0 k

claim-Marked :
    (p : Pmm) (count k : ℕ)
    → IsValid p
    → k + count ≤ page_to_bit p.highest_page_top
    → Marked p count k (claim p k count, k * 4096)
claim-Marked p count k v inside =
    let small = v.small in
    let covered = v.covered in
    record {
      pointer = refl;
      bits = λ j. is_set-claim p k count j v (omega arith) (omega arith);
      counter = unfold claim in refl;
      top = unfold claim in refl;
    }

-- On a valid state, pmm_alloc of 1 to 4096 pages returns null and changes nothing where the page
-- counter is 0 or every page below the top of memory is in use. Otherwise there is a first free page,
-- which is not page 0; if as many pages as the call asks for lie from there on below the top of
-- memory, the address of the first is returned, exactly these pages' bits are set, and the counter
-- grows by their number. Nothing is said where they would reach above the top of memory.
pub pmm_alloc-Marked :
    (p : Pmm) (count : ℕ)
    → IsValid p
    → 0 < count
    → count ≤ 4096
    → Refused p (pmm_alloc p count)
      ⊎ ((0 < p.used_pages_count)
          × ((k : ℕ) × FirstFree p k
              × ((page_to_bit p.highest_page_top < k + count)
                  ⊎ Marked p count k (pmm_alloc p count))))
pmm_alloc-Marked p count v pos few = by_case (pmm_alloc_lem p count v pos few)
  where
    by_case :
        Claimed p count (pmm_alloc p count) ⊎ Refused p (pmm_alloc p count)
        → Refused p (pmm_alloc p count)
          ⊎ ((0 < p.used_pages_count)
              × ((k : ℕ) × FirstFree p k
                  × ((page_to_bit p.highest_page_top < k + count)
                      ⊎ Marked p count k (pmm_alloc p count))))
    by_case (inr refused) = inl refused
    by_case (inl (k, r, lo, hi, free, used, some_used)) = inr (
      some_used,
      (
        k,
        (lo, hi, free, used),
        elim (Bool-cases (leb (k + count) (page_to_bit p.highest_page_top))) [
          | inl inside ↦ inr (rw r (claim-Marked p count k v (ground (arith, inside))))
          | inr outside ↦ inl (ground (arith, outside))
        ],
      ),
    )

-- On a valid state whose counter is not 0, a range of 2 to 4096 pages is handed out at the first
-- free page `k` also where page `k + 1` is in use: the pages behind the first are not checked.
pub pmm_alloc_overlaps :
    (p : Pmm) (k count : ℕ)
    → IsValid p
    → 0 < p.used_pages_count
    → 2 ≤ count
    → count ≤ 4096
    → k < page_to_bit p.highest_page_top
    → AllUsed p.bitmap 0 k
    → is_set p.bitmap k ≡ false
    → is_set p.bitmap (k + 1) ≡ true
    → pmm_alloc p count ≡ (claim p k count, k * page_size)
pmm_alloc_overlaps p k count v some_used two few below first free taken =
    by_case (pmm_alloc_lem p count v (omega arith) few)
  where
    by_case :
        Claimed p count (pmm_alloc p count) ⊎ Refused p (pmm_alloc p count)
        → pmm_alloc p count ≡ (claim p k count, k * page_size)
    by_case (inr (r, inl none)) = absurd (omega arith)
    by_case (inr (r, inr all)) = absurd (ground (arith, all k))
    by_case (inl (j, r, lo, hi, free_j, used, su)) =
        let same : j ≡ k = ground (arith, used k, first j) in rw (← same) r

-- pmm_allocz of one page on a valid state: the page at the returned pointer reads as zeros and
-- the rest of memory is unchanged, also when the pointer is null, where the page at address 0 is
-- filled with zeros.
pub pmm_allocz_lem :
    (p : Pmm) (m : Memory) (x : ℕ)
    → IsValid p
    → (pmm_allocz p m 1).1 x ≡ (if within (pmm_allocz p m 1).2 page_size x then 0 else m x)
unfolding pmm_allocz
pmm_allocz_lem p m x v =
    memset_lem m (pmm_alloc p 1).1 0 page_size x
      (bound (pmm_alloc_lem p 1 v (omega arith) (omega arith)))
  where
    bound :
        Claimed p 1 (pmm_alloc p 1) ⊎ Refused p (pmm_alloc p 1)
        → (pmm_alloc p 1).1 + page_size ≤ 2 ^ 64
    bound (inl (k, r, lo, hi, free, used, su)) = let small = v.small in rw r (omega arith)
    bound (inr (r, why)) = rw r (omega arith)
