-- ===== src/Pmm/Spare.antt =====
-- Allocators of src/kernel/memory/physical/pmm.c in which only the null page is in use, for the tests.
use apopt_os.Base.{
  Bool-cases, inl, inr, ltb, ℕ, zero, suc, ◌+◌, ◌*◌, ◌/◌, ◌%◌, ◌^◌, ◌<◌, ◌≡◌, refl, false,
  replicate, length, length-replicate, get_or-replicate, ◌==◌, arith, page_to_bit, page_size,
}
use apopt_os.Bitmap.{Bitmap, bitmap_check_bit, bitmap_set_bit, is_set}
use apopt_os.Bitmap.Byte.{byte_check-zero}
use apopt_os.Bitmap.Laws.{replicate-IsValid, bitmap_set_bit-IsValid, is_set-set_bit, size-set_bit}
use apopt_os.Pmm.{Pmm}
use apopt_os.Pmm.Supply.{free_below, free_pages, IsSound}

-- the bitmap of `size` bytes in which no page is in use
abbrev clear_bitmap : ℕ → Bitmap
clear_bitmap size = record { map = 0; bytes = replicate size 0; size = size }

-- `size` bytes, in which only the null page is in use.
abbrev pub one_used : ℕ → Pmm
one_used size = record {
  bitmap = bitmap_set_bit (clear_bitmap size) 0;
  highest_page_top = 8 * size * page_size;
  used_pages_count = 1;
}

is_set-clear : (size j : ℕ) → j / 8 < size → is_set (clear_bitmap size) j ≡ false
unfolding is_set bitmap_check_bit
is_set-clear size j h = elim (Bool-cases (ltb j (2 ^ 31))) [
  | inl small ↦
      rw (small, get_or-replicate {A = ℕ} size (j / 8) 0 0 h, byte_check-zero (j % 8) (omega arith))
        refl
  | inr big ↦ rw big refl
]

is_set-one_used : (size j : ℕ) → j / 8 < size → is_set (one_used size).bitmap j ≡ (0 == j)
is_set-one_used size j h =
    let valid = replicate-IsValid (clear_bitmap size) 0 (omega arith) refl in
    let inside : 0 / 8 < length (clear_bitmap size).bytes =
      rw (length-replicate {A = ℕ} size 0) (omega arith) in
    ground (arith, is_set-set_bit (clear_bitmap size) 0 j valid inside, is_set-clear size j h)

free_below-one_used : (size n : ℕ) → n < 8 * size → free_below (one_used size).bitmap (suc n) ≡ n
unfolding free_below
free_below-one_used size zero h = rw (is_set-one_used size 0 (omega arith)) refl
free_below-one_used size (suc n) h =
    let free : (0 == suc n) ≡ false = ground arith in
    rw (is_set-one_used size (suc n) (omega arith), free, free_below-one_used size n (omega arith))
      (omega arith)

pub one_used-free_pages : (n : ℕ) → free_pages (one_used (suc n)) ≡ 8 * n + 7
one_used-free_pages n =
    let top : page_to_bit (8 * suc n * page_size) ≡ suc (8 * n + 7) = omega arith in
    rw top (free_below-one_used (suc n) (8 * n + 7) (omega arith))

pub one_used-IsSound : (n : ℕ) → n < 2 ^ 27 → IsSound (one_used (suc n))
one_used-IsSound n small = record {
  pages = record {
    bits = bitmap_set_bit-IsValid 0 (replicate-IsValid (clear_bitmap (suc n)) 0 (omega arith) refl);
    covered = rw (size-set_bit (clear_bitmap (suc n)) 0) (omega arith);
    small = omega arith;
    null_used = is_set-one_used (suc n) 0 (omega arith);
  };
  some_used = omega arith;
  counted = omega (arith, one_used-free_pages n);
}
