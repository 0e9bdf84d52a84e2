-- ===== src/Pmm/Find.antt =====
-- What pmm_find_first_free_page_range returns.
use apopt_os.Base.{
  ℕ, zero, suc, ◌+◌, ◌*◌, ◌^◌, ◌<◌, ◌≤◌, ◌≡◌, ◌⊎◌, true, false, not, refl, u32, u64, ◌==◌, arith,
  Bool-cases, inl, inr, page_to_bit,
}
use apopt_os.Bitmap.{Bitmap, is_set}
use apopt_os.Pmm.{Pmm, page_range_is_free, find_from, pmm_find_first_free_page_range}

-- For up to 4096 pages the inner loop looks at one page only, the first.
page_range_is_free_lem :
    (b : Bitmap) (k count n i : ℕ)
    → i + suc n ≡ count
    → count ≤ 4096
    → k < 2 ^ 32
    → page_range_is_free b k count (suc n) i ≡ not (is_set b k)
unfolding page_range_is_free
page_range_is_free_lem b k count zero i e small hk =
    let ek : u32 (u64 (k + page_to_bit i)) ≡ k = omega arith in rw ek (ground arith)
page_range_is_free_lem b k count (suc n) i e small hk =
    let ek : u32 (u64 (k + page_to_bit i)) ≡ k = omega arith in
    rw ek (ground (arith, page_range_is_free_lem b k count n (i + 1)))

-- The bits from `lo` up to `hi` are all set.
abbrev pub AllUsed : Bitmap → ℕ → ℕ → Type 0
AllUsed b lo hi = (j : ℕ) → lo ≤ j → j < hi → is_set b j ≡ true

-- `a` is the address of the first page from `lo` whose bit is clear, and that page is below `hi`.
abbrev pub FirstFree : Bitmap → ℕ → ℕ → ℕ → Type 0
FirstFree b lo hi a =
    (k : ℕ) × (a ≡ k * 4096) × (lo ≤ k) × (k < hi) × (is_set b k ≡ false) × AllUsed b lo k

abbrev pub Found : Bitmap → ℕ → ℕ → ℕ → Type 0
Found b lo hi a = FirstFree b lo hi a ⊎ ((a ≡ 0) × AllUsed b lo hi)

AllUsed-step :
    (b : Bitmap) (lo hi : ℕ) → is_set b lo ≡ true → AllUsed b (lo + 1) hi → AllUsed b lo hi
AllUsed-step b lo hi e later j l lt = elim (Bool-cases (lo == j)) [
  | inl same ↦ let e' : lo ≡ j = ground arith in rw (← e') e
  | inr other ↦ later j (ground arith) lt
]

Found-step :
    (b : Bitmap) (lo hi a : ℕ) → is_set b lo ≡ true → Found b (lo + 1) hi a → Found b lo hi a
Found-step b lo hi a e (inl (k, ea, l, lt, free, used)) =
    inl (k, ea, omega arith, lt, free, AllUsed-step b lo k e used)
Found-step b lo hi a e (inr (z, used)) = inr (z, AllUsed-step b lo hi e used)

find_from-Found :
    (b : Bitmap) (count n lo hi : ℕ)
    → 0 < count
    → count ≤ 4096
    → lo + n ≡ hi
    → hi ≤ 2 ^ 32
    → Found b lo hi (find_from b count n lo)
unfolding find_from
find_from-Found b count zero lo hi pos small e top = inr (refl, λ j l lt. absurd (omega arith))
find_from-Found b zero (suc n) lo hi pos small e top = absurd (omega arith)
find_from-Found b (suc c) (suc n) lo hi pos small e top =
    rw (page_range_is_free_lem b lo (suc c) c 0 (omega arith) small (omega arith))
      (elim (Bool-cases (is_set b lo)) [
        | inl used ↦ rw used (
            Found-step b lo hi _ used
              (find_from-Found b (suc c) n (lo + 1) hi pos small (omega arith) top))
        | inr free ↦
            rw free (
              inl (lo, omega arith, omega arith, omega arith, free, λ j l lt. absurd (omega arith)))
      ])

-- For 1 to 4096 pages the search returns the address of the first free page, or null if there is
-- none: the pages behind the first are not looked at.
pub find-Found :
    (p : Pmm) (count : ℕ)
    → 0 < count
    → count ≤ 4096
    → p.highest_page_top < 2 ^ 43
    → Found p.bitmap 0 (page_to_bit p.highest_page_top) (pmm_find_first_free_page_range p count)
unfolding pmm_find_first_free_page_range
find-Found p count pos small top =
    find_from-Found p.bitmap count (page_to_bit p.highest_page_top) 0
      (page_to_bit p.highest_page_top) pos small (omega arith) (omega arith)
