-- ===== src/Pmm.antt =====
-- src/kernel/memory/physical/pmm.c: the bitmap based page frame allocator.
pub mod Init
pub mod Marks
pub mod Find
pub mod Alloc
pub mod Safety
pub mod Supply
pub mod Spare
pub mod Ranges
pub mod Boot
pub mod Hosting
pub mod Tests
use apopt_os.Base.{
  ℕ, zero, suc, ◌+◌, ◌-◌, ◌*◌, ◌^◌, Bool, true, false, u32, u64, leb, ◌==◌, if◌then◌else◌,
  page_size, bit_to_page, page_to_bit,
}
use apopt_os.Bitmap.{Bitmap, bitmap_set_bit, bitmap_unset_bit, is_set}
use apopt_os.Str.{Memory, memset}

-- The globals `pmm_bitmap`, `highest_page_top` and `used_pages_count`.
pub record Pmm : Type 0 where
  pub bitmap : Bitmap
  pub highest_page_top : ℕ
  pub used_pages_count : ℕ

-- The inner loop of pmm_find_first_free_page_range, with the rounds left and `page_count_i`:
-- whether it reaches its `return`. A bit number is passed as an `int`: its low 32 bits, of which a
-- pattern from 2 ^ 31 on is negative and, like it, outside every map.
unfoldable pub page_range_is_free : Bitmap → ℕ → ℕ → ℕ → ℕ → Bool
page_range_is_free b all_bits_i page_count zero i = false
page_range_is_free b all_bits_i page_count (suc n) i =
    let rest = page_range_is_free b all_bits_i page_count n (i + 1) in
    if is_set b (u32 (u64 (all_bits_i + page_to_bit i)))
    then false
    else if i == page_count - 1
    then true
    else rest

-- The outer loop; 0 is the null pointer.
unfoldable pub find_from : Bitmap → ℕ → ℕ → ℕ → ℕ
find_from b page_count zero all_bits_i = 0
find_from b page_count (suc n) all_bits_i =
    let rest = find_from b page_count n (all_bits_i + 1) in
    if page_range_is_free b all_bits_i page_count page_count 0 then bit_to_page all_bits_i else rest

unfoldable pub pmm_find_first_free_page_range : Pmm → ℕ → ℕ
pmm_find_first_free_page_range p page_count =
    find_from p.bitmap page_count (page_to_bit p.highest_page_top) 0

-- `for (i = 0; i < page_count; i++) bitmap_set_bit(&pmm_bitmap, index + i)`. Of a range that leaves the
-- map, the source writes outside the object and the model drops the rest; the laws on the bits are for
-- ranges in the map.
unfoldable pub set_range : Bitmap → ℕ → ℕ → ℕ → Bitmap
set_range b index zero i = b
set_range b index (suc n) i = set_range (bitmap_set_bit b (u32 (u64 (index + i)))) index n (i + 1)

unfoldable pub unset_range : Bitmap → ℕ → ℕ → ℕ → Bitmap
unset_range b index zero i = b
unset_range b index (suc n) i =
    unset_range (bitmap_unset_bit b (u32 (u64 (index + i)))) index n (i + 1)

-- The pages that pmm_alloc marks at the pointer that it has found.
unfoldable pub claim : Pmm → ℕ → ℕ → Pmm
claim p index page_count = record p {
  bitmap = set_range p.bitmap index page_count 0;
  used_pages_count = u64 (p.used_pages_count + page_count);
}

unfoldable pub pmm_alloc : Pmm → ℕ → Pmm × ℕ
pmm_alloc p page_count =
    let pointer = pmm_find_first_free_page_range p page_count in
    if leb p.used_pages_count 0
    then (p, 0)
    else if pointer == 0
    then (p, 0)
    else (claim p (page_to_bit pointer) page_count, bit_to_page (page_to_bit pointer))

-- The memory is filled also where the pointer is null.
unfoldable pub pmm_allocz : Pmm → Memory → ℕ → Pmm × Memory × ℕ
pmm_allocz p m page_count =
    let (p', pointer) = pmm_alloc p page_count in
    (p', memset m pointer 0 (u64 (page_size * page_count)), pointer)

unfoldable pub pmm_free : Pmm → ℕ → ℕ → Pmm
pmm_free p pointer page_count = record p {
  bitmap = unset_range p.bitmap (page_to_bit pointer) page_count 0;
  used_pages_count = u64 (p.used_pages_count + 2 ^ 64 - page_count);
}
