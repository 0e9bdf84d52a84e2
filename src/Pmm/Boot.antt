-- ===== src/Pmm/Boot.antt =====
-- The state that pmm_init leaves: which pages are free, and when the state is valid.
use apopt_os.Base.{
  ℕ, ◌+◌, ◌*◌, ◌/◌, ◌%◌, ◌^◌, ◌<◌, ◌≤◌, ◌≡◌, ◌⊎◌, ◌∙◌, Bool, true, false, not, ◌&&◌, ◌||◌, refl,
  ◌==◌, if◌then◌else◌, arith, Bool-cases, inl, inr, page_to_bit, page_size, List, [], ◌∷◌,
}
use apopt_os.Bitmap.{is_set}
use apopt_os.Bitmap.Laws as Bits
use apopt_os.Pmm.{Pmm, pmm_free}
use apopt_os.Pmm.Init.{
  MmapEntry, mmap_usable, highest_top, bitmap_size_for, host_bitmap, free_usable, filled_bitmap,
  all_used, pmm_init,
}
use apopt_os.Pmm.Marks.{in_pages, unset_range-IsValid, size-unset_range, is_set-unset_range}
use apopt_os.Pmm.Alloc.{IsValid}

-- Some usable entry of the memory map holds page `j`.
abbrev pub usable_page : List MmapEntry → ℕ → Bool
usable_page [] j = false
usable_page (e ∷ es) j =
    (e.kind == mmap_usable && in_pages (page_to_bit e.base) (e.length / page_size) j)
    || usable_page es j

-- Every entry ends below page 2 ^ 31.
abbrev pub Fits : List MmapEntry → Type 0
Fits [] = Unit {0}
Fits (e ∷ es) = (page_to_bit e.base + e.length / page_size ≤ 2 ^ 31) × Fits es

-- The parts of the state that the loop over the entries keeps.
record Kept (p q : Pmm) : Type 0 where
  bits : Bits.IsValid q.bitmap
  size : q.bitmap.size ≡ p.bitmap.size
  top : q.highest_page_top ≡ p.highest_page_top

pmm_free-Kept : (p : Pmm) (a n : ℕ) → Bits.IsValid p.bitmap → Kept p (pmm_free p a n)
unfolding pmm_free
pmm_free-Kept p a n v = record {
  bits = unset_range-IsValid p.bitmap (page_to_bit a) n 0 v;
  size = size-unset_range p.bitmap (page_to_bit a) n 0;
  top = refl;
}

free_usable-Kept :
    (es : List MmapEntry) (p : Pmm) → Bits.IsValid p.bitmap → Kept p (free_usable es p)
unfolding free_usable
free_usable-Kept [] p v = record { bits = v; size = refl; top = refl }
free_usable-Kept (e ∷ es) p v = elim (Bool-cases (e.kind == mmap_usable)) [
  | inl yes_usable ↦ rw yes_usable (
      after (pmm_free-Kept p e.base (e.length / page_size) v) (
        free_usable-Kept es (pmm_free p e.base (e.length / page_size))
          (pmm_free-Kept p e.base (e.length / page_size) v).bits))
  | inr other ↦ rw other (free_usable-Kept es p v)
]
  where
    after : {q r : Pmm} → Kept p q → Kept q r → Kept p r
    after k l = record { bits = l.bits; size = l.size ∙ k.size; top = l.top ∙ k.top }

is_set-free_usable :
    (es : List MmapEntry) (p : Pmm) (j : ℕ)
    → Bits.IsValid p.bitmap
    → Fits es
    → is_set (free_usable es p).bitmap j ≡ (if usable_page es j then false else is_set p.bitmap j)
unfolding free_usable
is_set-free_usable [] p j v fits = refl
is_set-free_usable (e ∷ es) p j v fits = elim (Bool-cases (e.kind == mmap_usable)) [
  | inl usable ↦ rw usable (
      ground (
        arith,
        is_set-free_usable es (pmm_free p e.base (e.length / page_size)) j
            (pmm_free-Kept p e.base (e.length / page_size) v).bits,
        freed e.base (e.length / page_size),
      ))
  | inr other ↦ rw (other, free_usable) (is_set-free_usable es p j v fits.1)
]
  where
    freed :
        (a n : ℕ)
        → page_to_bit a + n ≤ 2 ^ 31
        → is_set (pmm_free p a n).bitmap j
          ≡ (if in_pages (page_to_bit a) n j then false else is_set p.bitmap j)
    freed a n h =
        unfold pmm_free in ground (arith, is_set-unset_range p.bitmap (page_to_bit a) n 0 j v)

filled-IsValid : (map size : ℕ) → Bits.IsValid (filled_bitmap map size)
unfolding filled_bitmap
filled-IsValid map size = Bits.replicate-IsValid _ 0xFF (omega arith) refl

size-filled : (map size : ℕ) → (filled_bitmap map size).size ≡ size
unfolding filled_bitmap
size-filled map size = refl

is_set-filled :
    (map size j : ℕ) → j < 8 * size → j < 2 ^ 31 → is_set (filled_bitmap map size) j ≡ true
unfolding filled_bitmap
is_set-filled map size j h small = Bits.is_set-replicate _ size j refl (omega arith) small

-- The bits when pmm_init returns, by the memory map that it leaves.
pub is_set-pmm_init_left :
    (memmap : List MmapEntry) (j : ℕ)
    → 0 < bitmap_size_for (highest_top memmap 0)
    → Fits (pmm_init memmap).1
    → j < 8 * bitmap_size_for (highest_top memmap 0)
    → j < 2 ^ 31
    → is_set (pmm_init memmap).0.bitmap j
      ≡ (if 0 == j then true else not (usable_page (pmm_init memmap).1 j))
unfolding pmm_init all_used
is_set-pmm_init_left memmap j pos fits inside small =
    let top = highest_top memmap 0 in
    let hosted = host_bitmap (bitmap_size_for top) memmap in
    let start = all_used top hosted.1 in
    let v : Bits.IsValid start.bitmap = filled-IsValid hosted.1 (bitmap_size_for top) in
    let k = free_usable-Kept hosted.0 start v in
    ground (
      arith,
      k.bits.sized,
      k.size,
      size-filled hosted.1 (bitmap_size_for top),
      Bits.is_set-set_bit (free_usable hosted.0 start).bitmap 0 j k.bits,
      is_set-free_usable hosted.0 start j v fits,
      is_set-filled hosted.1 (bitmap_size_for top) j inside small,
    )

-- pmm_init establishes the invariant where its bitmap is not empty and has a bit for each page,
-- and the memory ends below 2 ^ 43.
pub pmm_init-IsValid :
    (memmap : List MmapEntry)
    → page_to_bit (highest_top memmap 0) ≤ 8 * bitmap_size_for (highest_top memmap 0)
    → 0 < bitmap_size_for (highest_top memmap 0)
    → highest_top memmap 0 < 2 ^ 43
    → IsValid (pmm_init memmap).0
unfolding pmm_init all_used
pmm_init-IsValid memmap covered pos small =
    let top = highest_top memmap 0 in
    let hosted = host_bitmap (bitmap_size_for top) memmap in
    let start = all_used top hosted.1 in
    let k = free_usable-Kept hosted.0 start (filled-IsValid hosted.1 (bitmap_size_for top)) in
    record {
      bits = Bits.bitmap_set_bit-IsValid 0 k.bits;
      covered = ground (
        arith,
        k.size,
        k.top,
        size-filled hosted.1 (bitmap_size_for top),
        Bits.size-set_bit (free_usable hosted.0 start).bitmap 0,
      );
      small = ground (arith, k.top);
      null_used = ground (
        arith,
        k.bits.sized,
        k.size,
        size-filled hosted.1 (bitmap_size_for top),
        Bits.is_set-set_bit (free_usable hosted.0 start).bitmap 0 0 k.bits,
      );
    }

-- For a memory that ends below 2 ^ 43, the bitmap that pmm_init sizes has a bit for each page
-- exactly if the number of pages is a multiple of 32768 or leaves a remainder of at least 8:
-- with a remainder of 1 to 7 these pages have no bit.
pub bitmap_size_for_covers :
    (top : ℕ)
    → top < 2 ^ 43
    → (page_to_bit top ≤ 8 * bitmap_size_for top
        → (page_to_bit top % 32768 ≡ 0) ⊎ (8 ≤ page_to_bit top % 32768))
      × ((page_to_bit top % 32768 ≡ 0) ⊎ (8 ≤ page_to_bit top % 32768)
          → page_to_bit top ≤ 8 * bitmap_size_for top)
unfolding bitmap_size_for
bitmap_size_for_covers top small = (λ h. omega arith, λ h. omega arith)
