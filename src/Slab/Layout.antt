-- ===== src/Slab/Layout.antt =====
-- Where the objects of a page lie: the slots of a slab and the slab structure do not overlap.
use apopt_os.Base.{ℕ, ◌+◌, ◌-◌, ◌*◌, ◌^◌, ◌<◌, ◌≤◌, ◌≡◌, arith, page_size}
use apopt_os.Slab.Heap.{sizeof_slab, sizeof_cache}
use apopt_os.Slab.Ops.{slot, slab_at}
use apopt_os.Slab.Life.{bufctl_count_max_for}

-- The objects up to the `n`-th of a size take at most `n` times the size.
max-mul-le : (size : ℕ) → 0 < size → bufctl_count_max_for size * size ≤ page_size - sizeof_cache
unfolding bufctl_count_max_for
max-mul-le size pos = grind arith

pub max-lt : (size : ℕ) → 0 < size → bufctl_count_max_for size < 4096
max-lt size pos =
    let e = max-mul-le size pos in
    let f : bufctl_count_max_for size ≤ bufctl_count_max_for size * size = grind arith in
    omega arith

slot-end-le : (size i n : ℕ) → i < n → size * i + size ≤ n * size
slot-end-le size i n h = grind arith

-- On a page of the 64-bit address space, every object of a slab lies behind the ones before it
-- and below the slab structure, which ends with the page, and the address arithmetic does not
-- wrap.
pub slot-in_page :
    (page size i : ℕ)
    → 0 < size
    → page + page_size ≤ 2 ^ 64
    → i < bufctl_count_max_for size
    → (slot page size i ≡ page + size * i)
      × (slot page size i + size ≤ slab_at page)
      × (slab_at page + sizeof_slab ≡ page + page_size)
unfolding slot slab_at
slot-in_page page size i pos fits lt =
    omega (arith, max-mul-le size pos, slot-end-le size i (bufctl_count_max_for size) lt)

-- Two objects of a slab on a page of the 64-bit address space do not overlap.
pub slots_apart :
    (page size i j : ℕ)
    → 0 < size
    → page + page_size ≤ 2 ^ 64
    → i < j
    → j < bufctl_count_max_for size
    → slot page size i + size ≤ slot page size j
slots_apart page size i j pos fits lt hj =
    let (a, b, d) = slot-in_page page size i pos fits (omega arith) in
    let (e, f, g) = slot-in_page page size j pos fits hj in
    omega (arith, a, e, slot-end-le size i j lt)
