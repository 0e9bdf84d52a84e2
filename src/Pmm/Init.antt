-- ===== src/Pmm/Init.antt =====
-- pmm_init of src/kernel/memory/physical/pmm.c: the memory map of the bootloader, the bitmap's
-- home, and the first state of the allocator. Its log lines are left out.
use apopt_os.Base.{
  ℕ, ◌+◌, ◌-◌, ◌/◌, Bool, not, ◌&&◌, u64, ltb, leb, ◌==◌, if◌then◌else◌, List, [], ◌∷◌, replicate,
  page_size, kb_to_pages, align_down, align_up, phys_to_higher_half_data,
}
use apopt_os.Bitmap.{Bitmap, bitmap_set_bit}
use apopt_os.Pmm.{Pmm, pmm_free}

-- The types of a memory map entry (boot/stivale2.h).
abbrev pub mmap_usable : ℕ
mmap_usable = 1

abbrev pub mmap_bootloader_reclaimable : ℕ
mmap_bootloader_reclaimable = 0x1000

abbrev pub mmap_kernel_and_modules : ℕ
mmap_kernel_and_modules = 0x1001

-- `struct stivale2_mmap_entry`, without its unused field
pub record MmapEntry : Type 0 where
  pub base : ℕ
  pub length : ℕ
  pub kind : ℕ

-- The first loop: the highest end of an entry of three kinds.
unfoldable pub counts_for_top : MmapEntry → Bool
counts_for_top e = not (
    not (e.kind == mmap_usable)
    && not (e.kind == mmap_bootloader_reclaimable)
    && not (e.kind == mmap_kernel_and_modules))

unfoldable pub highest_top : List MmapEntry → ℕ → ℕ
highest_top [] top = top
highest_top (e ∷ es) top =
    highest_top es (
      if counts_for_top e && ltb top (u64 (e.base + e.length))
      then u64 (e.base + e.length)
      else top)

unfoldable pub bitmap_size_for : ℕ → ℕ
bitmap_size_for top = align_up (align_down top / page_size / 8)

-- The second loop: the first usable entry that is long enough hosts the bitmap and is cut. With it,
-- the address of the bitmap; without a host the global keeps its null pointer.
unfoldable pub host_bitmap : ℕ → List MmapEntry → List MmapEntry × ℕ
host_bitmap size [] = ([], 0)
host_bitmap size (e ∷ es) =
    let (rest, map) = host_bitmap size es in
    if e.kind == mmap_usable && leb size e.length
    then (
      record e { base = u64 (e.base + size); length = e.length - size } ∷ es,
      phys_to_higher_half_data e.base,
    )
    else (e ∷ rest, map)

-- The last loop: the pages of every usable entry are freed.
unfoldable pub free_usable : List MmapEntry → Pmm → Pmm
free_usable [] p = p
free_usable (e ∷ es) p =
    free_usable es (if e.kind == mmap_usable then pmm_free p e.base (e.length / page_size) else p)

unfoldable pub filled_bitmap : ℕ → ℕ → Bitmap
filled_bitmap map size = record { map = map; bytes = replicate size 0xFF; size = size }

-- The state before the last loop, from a memory map whose host has been cut.
unfoldable pub all_used : ℕ → ℕ → Pmm
all_used top map = record {
  bitmap = filled_bitmap map (bitmap_size_for top);
  highest_page_top = top;
  used_pages_count = kb_to_pages top;
}

-- The state and the memory map that pmm_init leaves.
unfoldable pub pmm_init : List MmapEntry → Pmm × List MmapEntry
pmm_init memmap =
    let top = highest_top memmap 0 in
    let (memmap', map) = host_bitmap (bitmap_size_for top) memmap in
    let p = free_usable memmap' (all_used top map) in
    (record p { bitmap = bitmap_set_bit p.bitmap 0 }, memmap')
