-- ===== src/Pmm/Marks.antt =====
-- The loops of pmm_alloc and pmm_free on the bitmap: which bits they change.
use apopt_os.Base.{
  ℕ, zero, suc, ◌+◌, ◌*◌, ◌^◌, ◌≤◌, ◌≡◌, ◌∙◌, Bool, true, false, ◌&&◌, refl, u32, u64, ltb, leb,
  if◌then◌else◌, arith,
}
use apopt_os.Bitmap.{Bitmap, bitmap_set_bit, bitmap_unset_bit, is_set}
use apopt_os.Bitmap.Laws.{
  IsValid, bitmap_set_bit-IsValid, bitmap_unset_bit-IsValid, is_set-set_bit, is_set-unset_bit,
  is_set-set_bit_mono, size-set_bit, size-unset_bit,
}
use apopt_os.Pmm.{set_range, unset_range}

-- the test that page `j` is one of the `n` from `lo` on
abbrev pub in_pages : ℕ → ℕ → ℕ → Bool
in_pages lo n j = leb lo j && ltb j (lo + n)

pub set_range-IsValid : (b : Bitmap) (index n i : ℕ) → IsValid b → IsValid (set_range b index n i)
unfolding set_range
set_range-IsValid b index zero i h = h
set_range-IsValid b index (suc n) i h =
    set_range-IsValid (bitmap_set_bit b (u32 (u64 (index + i)))) index n (i + 1)
      (bitmap_set_bit-IsValid _ h)

pub unset_range-IsValid :
    (b : Bitmap) (index n i : ℕ) → IsValid b → IsValid (unset_range b index n i)
unfolding unset_range
unset_range-IsValid b index zero i h = h
unset_range-IsValid b index (suc n) i h =
    unset_range-IsValid (bitmap_unset_bit b (u32 (u64 (index + i)))) index n (i + 1)
      (bitmap_unset_bit-IsValid _ h)

pub size-set_range : (b : Bitmap) (index n i : ℕ) → (set_range b index n i).size ≡ b.size
unfolding set_range
size-set_range b index zero i = refl
size-set_range b index (suc n) i =
    size-set_range (bitmap_set_bit b (u32 (u64 (index + i)))) index n (i + 1) ∙ size-set_bit b _

pub size-unset_range : (b : Bitmap) (index n i : ℕ) → (unset_range b index n i).size ≡ b.size
unfolding unset_range
size-unset_range b index zero i = refl
size-unset_range b index (suc n) i =
    size-unset_range (bitmap_unset_bit b (u32 (u64 (index + i)))) index n (i + 1)
    ∙ size-unset_bit b _

-- Exactly the bits of the range become set, where the range lies in the map.
pub is_set-set_range :
    (b : Bitmap) (index n i j : ℕ)
    → IsValid b
    → index + i + n ≤ 8 * b.size
    → index + i + n ≤ 2 ^ 31
    → is_set (set_range b index n i) j ≡ (if in_pages (index + i) n j then true else is_set b j)
unfolding set_range
is_set-set_range b index zero i j h inside small = ground arith
is_set-set_range b index (suc n) i j h inside small =
    let e : u32 (u64 (index + i)) ≡ index + i = omega arith in
    rw e (
      ground (
        arith,
        size-set_bit b (index + i),
        h.sized,
        is_set-set_bit b (index + i) j h,
        is_set-set_range (bitmap_set_bit b (index + i)) index n (i + 1) j
            (bitmap_set_bit-IsValid (index + i) h),
      ))

-- Exactly the bits of the range become clear.
pub is_set-unset_range :
    (b : Bitmap) (index n i j : ℕ)
    → IsValid b
    → index + i + n ≤ 2 ^ 31
    → is_set (unset_range b index n i) j ≡ (if in_pages (index + i) n j then false else is_set b j)
unfolding unset_range
is_set-unset_range b index zero i j h small = ground arith
is_set-unset_range b index (suc n) i j h small =
    let e : u32 (u64 (index + i)) ≡ index + i = omega arith in
    rw e (
      ground (
        arith,
        is_set-unset_bit b (index + i) j h,
        is_set-unset_range (bitmap_unset_bit b (index + i)) index n (i + 1) j
            (bitmap_unset_bit-IsValid (index + i) h),
      ))

-- No page becomes free, wherever the range lies.
pub is_set-set_range_mono :
    (b : Bitmap) (index n i j : ℕ)
    → IsValid b
    → is_set b j ≡ true
    → is_set (set_range b index n i) j ≡ true
unfolding set_range
is_set-set_range_mono b index zero i j h e = e
is_set-set_range_mono b index (suc n) i j h e =
    is_set-set_range_mono (bitmap_set_bit b (u32 (u64 (index + i)))) index n (i + 1) j
      (bitmap_set_bit-IsValid _ h) (is_set-set_bit_mono b _ j h e)
