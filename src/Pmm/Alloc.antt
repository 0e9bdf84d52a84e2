-- ===== src/Pmm/Alloc.antt =====
-- pmm_alloc, pmm_allocz and pmm_free: the invariant of the allocator and what each call changes.
use apopt_os.Base.{
  ℕ, zero, suc, ◌*◌, ◌^◌, ◌<◌, ◌≤◌, ◌≡◌, ◌⊎◌, true, false, refl, leb, ◌==◌, if◌then◌else◌, arith,
  Bool-cases, inl, inr, bit_to_page, page_to_bit,
}
use apopt_os.Bitmap.{is_set}
use apopt_os.Bitmap.Laws as Bits
use apopt_os.Pmm.{Pmm, pmm_find_first_free_page_range, claim, pmm_alloc}
use apopt_os.Pmm.Find.{AllUsed, FirstFree, Found, find-Found}

-- The bitmap has a bit for each page, page 0 is reserved, and page numbers fit an `int`.
pub record IsValid (p : Pmm) : Type 0 where
  pub bits : Bits.IsValid p.bitmap
  pub covered : page_to_bit p.highest_page_top ≤ 8 * p.bitmap.size
  pub small : p.highest_page_top < 2 ^ 43
  pub null_used : is_set p.bitmap 0 ≡ true

-- A page number from 1 that the search returns is not null, and turns into its address and back.
module _ (p : Pmm) (count : ℕ) (v : IsValid p) (pos : 0 < count) (few : count ≤ 4096) where
  found : Found p.bitmap 0 (page_to_bit p.highest_page_top) (pmm_find_first_free_page_range p count)
  found = find-Found p count pos few v.small

  FirstFree-pos : {a : ℕ} → FirstFree p.bitmap 0 (page_to_bit p.highest_page_top) a → 0 < a
  FirstFree-pos (zero, ea, lo, hi, free, used) = absurd (ground (arith, v.null_used))
  FirstFree-pos (suc k, ea, lo, hi, free, used) = omega arith

-- What a call of pmm_alloc for `count` pages leads to: the first free page `k` is claimed with the
-- pages behind it, or the call returns null and changes nothing.
abbrev pub Claimed : Pmm → ℕ → Pmm × ℕ → Type 0
Claimed p count r =
    (k : ℕ) × (r ≡ (claim p k count, k * 4096))
    × (0 < k)
    × (k < page_to_bit p.highest_page_top)
    × (is_set p.bitmap k ≡ false)
    × AllUsed p.bitmap 0 k
    × (0 < p.used_pages_count)

abbrev pub Refused : Pmm → Pmm × ℕ → Type 0
Refused p r =
    (r ≡ (p, 0)) × ((p.used_pages_count ≡ 0) ⊎ AllUsed p.bitmap 0 (page_to_bit p.highest_page_top))

claimed :
    (p : Pmm) (count a : ℕ)
    → IsValid p
    → 0 < p.used_pages_count
    → 0 < a
    → FirstFree p.bitmap 0 (page_to_bit p.highest_page_top) a
    → Claimed p count (claim p (page_to_bit a) count, bit_to_page (page_to_bit a))
claimed p count a v some_used pos (k, ea, lo, hi, free, used) =
    let small = v.small in
    let ek : page_to_bit a ≡ k = omega arith in
    let ep : bit_to_page (page_to_bit a) ≡ k * 4096 = omega arith in
    (k, (rw (ep, ek) refl), omega arith, hi, free, used, some_used)

-- On a valid state, pmm_alloc of 1 to 4096 pages claims `count` pages from the first free page
-- on, which is not page 0, or it changes nothing and returns null; it does the latter when the
-- page counter is 0 or when every page below the top of memory is in use.
pub pmm_alloc_lem :
    (p : Pmm) (count : ℕ)
    → IsValid p
    → 0 < count
    → count ≤ 4096
    → Claimed p count (pmm_alloc p count) ⊎ Refused p (pmm_alloc p count)
unfolding pmm_alloc
pmm_alloc_lem p count v pos few = elim (Bool-cases (leb p.used_pages_count 0)) [
  | inl none_used ↦ rw none_used (inr (refl, inl (ground arith)))
  | inr some_used ↦ rw some_used (by_search some_used (found p count v pos few))
]
  where
    a : ℕ
    a = pmm_find_first_free_page_range p count

    by_search :
        leb p.used_pages_count 0 ≡ false
        → Found p.bitmap 0 (page_to_bit p.highest_page_top) a
        → let r : Pmm × ℕ =
            if a == 0
            then (p, 0)
            else (claim p (page_to_bit a) count, bit_to_page (page_to_bit a)) in
          Claimed p count r ⊎ Refused p r
    by_search su (inl f) =
        let pos_a : 0 < a = FirstFree-pos p count v pos few f in
        let ne : (a == 0) ≡ false = ground arith in
        rw ne (inl (claimed p count a v (ground arith) pos_a f))
    by_search su (inr (z, used)) =
        let eq : (a == 0) ≡ true = ground arith in rw eq (inr (refl, inr used))
