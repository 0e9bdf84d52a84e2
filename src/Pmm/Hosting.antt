-- ===== src/Pmm/Hosting.antt =====
-- pmm_init of src/kernel/memory/physical/pmm.c against the memory map that it is given: the entry that
-- hosts the bitmap loses the bitmap's pages.
use apopt_os.Base.{
  ℕ, ◌+◌, ◌-◌, ◌*◌, ◌/◌, ◌%◌, ◌^◌, ◌<◌, ◌≤◌, ◌≡◌, ◌∙◌, Bool, true, false, not, ◌&&◌, refl, u64, leb,
  ◌==◌, if◌then◌else◌, arith, Bool-cases, inl, inr, page_to_bit, page_size, List, [], ◌∷◌,
}
use apopt_os.Bitmap.{is_set}
use apopt_os.Pmm.Init.{MmapEntry, mmap_usable, highest_top, bitmap_size_for, host_bitmap, pmm_init}
use apopt_os.Pmm.Marks.{in_pages}
use apopt_os.Pmm.Boot.{usable_page, Fits, is_set-pmm_init_left}

-- Page `j` is one of the first `size` bytes of the first usable entry that has as many.
abbrev pub hosting : ℕ → List MmapEntry → ℕ → Bool
hosting size [] j = false
hosting size (e ∷ es) j =
    if e.kind == mmap_usable && leb size e.length
    then in_pages (page_to_bit e.base) (size / page_size) j
    else hosting size es j

-- No page lies in two usable entries.
abbrev pub Disjoint : List MmapEntry → Type 0
Disjoint [] = Unit {0}
Disjoint (e ∷ es) =
    ((j : ℕ) → usable_page (e ∷ []) j ≡ true → usable_page es j ≡ false) × Disjoint es

hosting-usable_page :
    (size : ℕ) (es : List MmapEntry) (j : ℕ) → hosting size es j ≡ true → usable_page es j ≡ true
hosting-usable_page size [] j own = own
hosting-usable_page size (e ∷ es) j own =
    elim (Bool-cases (e.kind == mmap_usable && leb size e.length)) [
      | inl host ↦ ground (arith, own, host)
      | inr other ↦ ground (arith, hosting-usable_page size es j (rw other at own))
    ]

-- The pages of an entry without its first `size` bytes.
cut_pages :
    (base length size j : ℕ)
    → size % page_size ≡ 0
    → size ≤ length
    → page_to_bit base + length / page_size ≤ 2 ^ 31
    → in_pages (page_to_bit (u64 (base + size))) ((length - size) / page_size) j ≡ (
        in_pages (page_to_bit base) (length / page_size) j
        && not (in_pages (page_to_bit base) (size / page_size) j))
cut_pages base length size j whole le fits =
    let start : page_to_bit (u64 (base + size)) ≡ page_to_bit base + size / page_size =
      omega arith in
    let rest : (length - size) / page_size ≡ length / page_size - size / page_size = omega arith in
    let some_left : size / page_size ≤ length / page_size = omega arith in
    rw (start, rest) (ground arith)

usable_page-host_bitmap :
    (size : ℕ) (es : List MmapEntry) (j : ℕ)
    → size % page_size ≡ 0
    → Fits es
    → Disjoint es
    → usable_page (host_bitmap size es).0 j ≡ (usable_page es j && not (hosting size es j))
unfolding host_bitmap
usable_page-host_bitmap size [] j whole fits apart = refl
usable_page-host_bitmap size (e ∷ es) j whole (fit, fits) (ne, apart) =
    elim (Bool-cases (e.kind == mmap_usable && leb size e.length)) [
      | inl host ↦
          let usable : (e.kind == mmap_usable) ≡ true = ground (arith, host) in
          let cut = cut_pages e.base e.length size j whole (ground (arith, host)) fit in
          rw (host, usable, cut) (ground (arith, ne j, whole, host))
      | inr other ↦
          rw (other, usable_page-host_bitmap size es j whole fits apart)
            (ground (arith, ne j, hosting-usable_page size es j))
    ]

Fits-host_bitmap :
    (size : ℕ) (es : List MmapEntry) → size % page_size ≡ 0 → Fits es → Fits (host_bitmap size es).0
unfolding host_bitmap
Fits-host_bitmap size [] whole fits = tt
Fits-host_bitmap size (e ∷ es) whole (fit, fits) =
    elim (Bool-cases (e.kind == mmap_usable && leb size e.length)) [
      | inl host ↦
          let le : size ≤ e.length = ground (arith, host) in
          rw host (omega (arith, fit, le, whole), fits)
      | inr other ↦ rw other (fit, Fits-host_bitmap size es whole fits)
    ]

-- The bits when pmm_init returns, where the bitmap is not empty, the entries of the memory map end
-- below page 2 ^ 31 and no page lies in two usable ones: of the pages that the bitmap covers, page 0
-- is in use, and any other is free exactly when it lies in a usable entry and is not one of the pages
-- for the bitmap's bytes at the start of the first usable entry that has room for them.
pub is_set-pmm_init :
    (memmap : List MmapEntry) (j : ℕ)
    → 0 < bitmap_size_for (highest_top memmap 0)
    → Fits memmap
    → Disjoint memmap
    → j < 8 * bitmap_size_for (highest_top memmap 0)
    → j < 2 ^ 31
    → is_set (pmm_init memmap).0.bitmap j ≡ (
        if 0 == j
        then true
        else not (
            usable_page memmap j
            && not (hosting (bitmap_size_for (highest_top memmap 0)) memmap j)))
unfolding pmm_init
is_set-pmm_init memmap j pos fits apart inside small =
    let size = bitmap_size_for (highest_top memmap 0) in
    let whole : size % page_size ≡ 0 = unfold bitmap_size_for in omega arith in
    is_set-pmm_init_left memmap j pos (Fits-host_bitmap size memmap whole fits) inside small
    ∙ rw (usable_page-host_bitmap size memmap j whole fits apart) refl
