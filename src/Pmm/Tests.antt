-- ===== src/Pmm/Tests.antt =====
-- The page allocator on a memory of eight pages, and on small memory maps.
use apopt_os.Base.{
  ◌+◌, ◌&&◌, ℕ, zero, suc, ◌*◌, ◌%◌, ◌<◌, ◌≤◌, ◌≡◌, ◌⊎◌, true, false, not, refl, ◌==◌,
  if◌then◌else◌, arith, page_size, page_to_bit, List, [], ◌∷◌, get_or,
}
use apopt_os.Bitmap.{bitmap_set_bit, bitmap_check_bit, byte_check, byte_set, is_set}
use apopt_os.Str.Laws.{within}
use apopt_os.Pmm.{
  Pmm, page_range_is_free, find_from, pmm_find_first_free_page_range, set_range, claim, pmm_alloc,
  pmm_allocz, pmm_free,
}
use apopt_os.Pmm.Init.{MmapEntry, pmm_init, counts_for_top, highest_top, bitmap_size_for}
use apopt_os.Pmm.Find.{AllUsed}
use apopt_os.Pmm.Supply.{free_pages, Given, pmm_alloc-free_pages}
use apopt_os.Pmm.Spare.{one_used, one_used-IsSound}
use apopt_os.Pmm.Alloc.{IsValid, Refused}
use apopt_os.Pmm.Safety.{pmm_alloc_one}
use apopt_os.Pmm.Ranges.{
  pmm_free-pmm_alloc, FirstFree, Marked, pmm_alloc-Marked, pmm_alloc_overlaps, pmm_allocz_lem,
}
use apopt_os.Pmm.Hosting.{hosting, is_set-pmm_init}
use apopt_os.Pmm.Boot.{usable_page}

-- Eight pages, of which a byte says which are in use.
abbrev pub eight_pages : ℕ → ℕ → Pmm
eight_pages byte count = record {
  bitmap = record { map = 0; bytes = byte ∷ []; size = 1 };
  highest_page_top = 8 * page_size;
  used_pages_count = count;
}

eight_pages-IsValid :
    (byte count : ℕ)
    → byte < 256
    → is_set (eight_pages byte count).bitmap 0 ≡ true
    → IsValid (eight_pages byte count)
eight_pages-IsValid byte count lt null = record {
  bits = record { byte = one_byte; sized = refl };
  covered = omega arith;
  small = omega arith;
  null_used = null;
}
  where
    one_byte : (i : ℕ) → get_or (byte ∷ []) i 0 < 256
    one_byte zero = lt
    one_byte (suc i) = omega arith

-- Only page 0 is in use.
pub fresh-IsValid : IsValid (eight_pages 1 1)
unfolding is_set bitmap_check_bit byte_check
fresh-IsValid = eight_pages-IsValid 1 1 (omega arith) refl

pub first_page : pmm_alloc (eight_pages 1 1) 1 ≡ (eight_pages 3 2, page_size)
unfolding pmm_alloc pmm_find_first_free_page_range find_from page_range_is_free claim set_range
    is_set bitmap_set_bit bitmap_check_bit byte_set byte_check
first_page = refl

pub second_page : pmm_alloc (eight_pages 3 2) 1 ≡ (eight_pages 7 3, 2 * page_size)
unfolding pmm_alloc pmm_find_first_free_page_range find_from page_range_is_free claim set_range
    is_set bitmap_set_bit bitmap_check_bit byte_set byte_check
second_page = refl

pmm_alloc_one_example :
    (page_size % page_size ≡ 0)
    × (page_size < 8 * page_size)
    × (is_set (eight_pages 1 1).bitmap (page_to_bit page_size) ≡ false)
    × ((j : ℕ)
        → is_set (eight_pages 3 2).bitmap j
          ≡ (if page_to_bit page_size == j then true else is_set (eight_pages 1 1).bitmap j))
pmm_alloc_one_example = pmm_alloc_one (eight_pages 1 1) fresh-IsValid first_page (omega arith)

pmm_free-pmm_alloc_example :
    ((j : ℕ)
      → is_set (pmm_free (eight_pages 3 2) page_size 1).bitmap j
        ≡ is_set (eight_pages 1 1).bitmap j)
    × ((pmm_free (eight_pages 3 2) page_size 1).used_pages_count ≡ 1)
pmm_free-pmm_alloc_example =
    pmm_free-pmm_alloc (eight_pages 1 1) fresh-IsValid (omega arith) first_page (omega arith)

-- Pages 0 and 2 are in use: a range of two pages is handed out at page 1.
split-IsValid : IsValid (eight_pages 5 2)
unfolding is_set bitmap_check_bit byte_check
split-IsValid = eight_pages-IsValid 5 2 (omega arith) refl

split-bits :
    AllUsed (eight_pages 5 2).bitmap 0 1
    × (is_set (eight_pages 5 2).bitmap 1 ≡ false)
    × (is_set (eight_pages 5 2).bitmap 2 ≡ true)
unfolding is_set bitmap_check_bit byte_check
split-bits = (λ j lo hi. ground arith, refl, refl)

pmm_alloc_overlaps_example :
    pmm_alloc (eight_pages 5 2) 2 ≡ (claim (eight_pages 5 2) 1 2, 1 * page_size)
pmm_alloc_overlaps_example =
    pmm_alloc_overlaps (eight_pages 5 2) 1 2 split-IsValid (omega arith) (omega arith) (omega arith)
      (omega arith) split-bits.0 split-bits.1 split-bits.2

pmm_allocz_lem_example :
    (pmm_allocz (eight_pages 1 1) (λ _. 7) 1).1 5000
    ≡ (if within (pmm_allocz (eight_pages 1 1) (λ _. 7) 1).2 page_size 5000 then 0 else 7)
pmm_allocz_lem_example = pmm_allocz_lem (eight_pages 1 1) (λ _. 7) 5000 fresh-IsValid

-- One usable entry of 64 pages, of which the first hosts the bitmap.
abbrev pub one_entry : List MmapEntry
one_entry = record { base = 0; length = 64 * page_size; kind = 1 } ∷ []

pub one_entry-top : highest_top one_entry 0 ≡ 64 * page_size
unfolding highest_top counts_for_top
one_entry-top = refl

pub one_entry-size : bitmap_size_for (highest_top one_entry 0) ≡ 4096
unfolding highest_top counts_for_top bitmap_size_for
one_entry-size = refl

pub one_entry-covered :
    page_to_bit (highest_top one_entry 0) ≤ 8 * bitmap_size_for (highest_top one_entry 0)
one_entry-covered = rw (one_entry-size, one_entry-top) (omega arith)

is_set-pmm_init_example : is_set (pmm_init one_entry).0.bitmap 5 ≡ (
    if 0 == 5
    then true
    else not (
        usable_page one_entry 5
        && not (hosting (bitmap_size_for (highest_top one_entry 0)) one_entry 5)))
is_set-pmm_init_example =
    is_set-pmm_init one_entry 5 (omega (arith, one_entry-size)) (omega arith, tt)
      ((λ j used. refl), tt) (omega (arith, one_entry-size)) (omega arith)

pmm_alloc-free_pages_example :
    ((pmm_alloc (one_used 1) 1 ≡ (one_used 1, 0)) × (free_pages (one_used 1) ≡ 0))
    ⊎ Given (one_used 1) (pmm_alloc (one_used 1) 1)
pmm_alloc-free_pages_example = pmm_alloc-free_pages (one_used 1) (one_used-IsSound 0 (omega arith))

pmm_alloc-Marked_example :
    Refused (eight_pages 1 1) (pmm_alloc (eight_pages 1 1) 2)
    ⊎ ((0 < (eight_pages 1 1).used_pages_count)
        × ((k : ℕ) × FirstFree (eight_pages 1 1) k
            × ((8 < k + 2) ⊎ Marked (eight_pages 1 1) 2 k (pmm_alloc (eight_pages 1 1) 2))))
pmm_alloc-Marked_example =
    pmm_alloc-Marked (eight_pages 1 1) 2 fresh-IsValid (omega arith) (omega arith)
