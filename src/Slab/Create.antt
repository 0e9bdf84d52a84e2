-- ===== src/Slab/Create.antt =====
-- slab_cache_create: a new cache with one slab, all of whose objects are free.
use apopt_os.Base.{
  ℕ, suc, ◌+◌, ◌-◌, ◌^◌, ◌<◌, ◌≤◌, ◌≡◌, ◌≢◌, ◌∙◌, Bool, true, false, ◌&&◌, sym, ap, subst, leb,
  ◌==◌, if◌then◌else◌, arith, page_size,
}
use apopt_os.Slab.Heap.{Cache, Flags, Heap, done, allocz_page, sizeof_bufctl}
use apopt_os.Str.Laws.{within}
use apopt_os.Slab.Ops.{
  slot, slab_at, slab_create_bufctl_buffer, add_slab, grow_loop, rewind, slab_cache_grow,
  is_power_of_two,
}
use apopt_os.Slab.Life.{bufctl_count_max_for, init_cache, slab_cache_create}
use apopt_os.Slab.Layout.{slot-in_page, max-lt}
use apopt_os.Slab.Fill.{IsPage}
use apopt_os.Slab.Grow.{IsReady, add_slab-Listed}
use apopt_os.Slab.Walk.{free_list, slots_from, free_list-Listed}
use apopt_os.Slab.Loss.{buffer-caches}
use apopt_os.Pmm
use apopt_os.Pmm.{Pmm}
use apopt_os.Pmm.Alloc.{IsValid}
use apopt_os.Pmm.Safety.{pmm_alloc-IsValid, pmm_alloc_one}
use apopt_os.Pmm.Ranges.{pmm_alloc-pmm_alloc-ne}

-- The sizes that slab_cache_create accepts.
abbrev pub accepts : ℕ → Bool
accepts size = leb size 512 && leb sizeof_bufctl size && is_power_of_two size

-- The page that slab_create_bufctl_buffer returns reads as zeros.
buffer-zeroed :
    (h : Heap) (b x : ℕ) {g : Heap}
    → slab_create_bufctl_buffer h ≡ (b, g)
    → 0 < b
    → within b page_size x ≡ true
    → (g.bufctls x).next ≡ 0
unfolding slab_create_bufctl_buffer allocz_page
buffer-zeroed h b x page pb inside = ground arith

pub new_cache :
    (h : Heap) (c size : ℕ) {g : Heap}
    → allocz_page h ≡ (c, g)
    → 0 < c
    → let k = (rewind (init_cache g c size) c).caches c in
      (k.slab_size ≡ size) × (k.bufctl_count_max ≡ bufctl_count_max_for size) × (k.slabs ≡ 0)
unfolding allocz_page rewind init_cache
new_cache h c size e pc = (ground arith, ground arith, ground arith)

pub enough_slots : (size : ℕ) → accepts size ≡ true → 7 ≤ bufctl_count_max_for size
unfolding bufctl_count_max_for
enough_slots size h =
    let le : size ≤ 512 = ground arith in let ge : 10 ≤ size = ground arith in grind arith

pub accepts-pos : (size : ℕ) → accepts size ≡ true → 0 < size
accepts-pos size h = let ge : 10 ≤ size = ground arith in omega arith

-- The page allocator's part in the two allocations of a creation.
allocz_page-pmm :
    (h : Heap) (c : ℕ) {g : Heap} → allocz_page h ≡ (c, g) → Pmm.pmm_alloc h.pmm 1 ≡ (g.pmm, c)
unfolding allocz_page
allocz_page-pmm h c e = ground arith

buffer-pmm :
    (h : Heap) (b : ℕ) {g : Heap}
    → slab_create_bufctl_buffer h ≡ (b, g)
    → 0 < b
    → Pmm.pmm_alloc h.pmm 1 ≡ (g.pmm, b)
unfolding slab_create_bufctl_buffer allocz_page
buffer-pmm h b e pb = ground arith

slab_at-pos : (b : ℕ) → 0 < b → b + page_size ≤ 2 ^ 64 → slab_at b ≢ 0
unfolding slab_at
slab_at-pos b pos fits = omega arith

-- The pages of a new cache and of its first slab are two pages of memory.
module _ (h : Heap) (c b size : ℕ) {g k : Heap} (v : IsValid h.pmm) (pc : 0 < c) (pb : 0 < b)
    (cache_page : allocz_page h ≡ (c, g))
    (slab_page : slab_create_bufctl_buffer (rewind (init_cache g c size) c) ≡ (b, k)) where
  second : Pmm.pmm_alloc g.pmm 1 ≡ (k.pmm, b)
  unfolding rewind init_cache
  second = buffer-pmm (rewind (init_cache g c size) c) b slab_page pb

  still-IsValid : IsValid g.pmm
  still-IsValid =
      rw (ap (λ (t : Pmm × ℕ). t.0) (allocz_page-pmm h c cache_page)) at
        (pmm_alloc-IsValid h.pmm 1 v (omega arith) (omega arith))

  slab-IsPage : 0 < size → IsPage b size
  slab-IsPage ps =
      let (aligned, below, free, others) = pmm_alloc_one g.pmm still-IsValid second pb in
      let small = still-IsValid.small in
      record { pos = ps; fits = omega arith; not_null = pb; aligned = aligned }

  pages_apart : within b page_size c ≡ false
  pages_apart =
      let (al_b, below_b, free_b, others_b) = pmm_alloc_one g.pmm still-IsValid second pb in
      let (al_c, below_c, free_c, others_c) =
        pmm_alloc_one h.pmm v (allocz_page-pmm h c cache_page) pc in
      let ne = pmm_alloc-pmm_alloc-ne h.pmm v (allocz_page-pmm h c cache_page) pc second pb in
      ground arith

  ready :
      (flags : Flags) (ps : 0 < size)
      → IsReady c b size flags (slab-IsPage ps) k (bufctl_count_max_for size)
  ready flags ps =
      let page = slab-IsPage ps in
      let kept = buffer-caches (rewind (init_cache g c size) c) c b slab_page pb pages_apart in
      let (object_size, max, none_yet) = new_cache h c size cache_page pc in
      let not_null = page.not_null in
      let fits = page.fits in
      record {
        object_size = ap (λ (r : Cache). r.slab_size) kept ∙ object_size;
        max = ap (λ (r : Cache). r.bufctl_count_max) kept ∙ max;
        room = omega arith;
        elsewhere = λ same.
            slab_at-pos b pb page.fits (sym same ∙ ap (λ (r : Cache). r.slabs) kept ∙ none_yet);
        zeroed = λ i lt.
            let (e, below, end) = slot-in_page b size i ps page.fits lt in
            buffer-zeroed (rewind (init_cache g c size) c) b (slot b size i) slab_page pb
              (ground arith);
      }

  pub created :
      (flags : Flags)
      → accepts size ≡ true
      → slab_cache_create h size flags ≡ done c (add_slab k c b flags)
  unfolding slab_cache_create slab_cache_grow grow_loop
  created flags ok =
      let nc : (c == 0) ≡ false = ground arith in
      let nb : (b == 0) ≡ false = ground arith in
      rw (ok, cache_page, nc, slab_page, nb)
        (ap (λ (q : ℕ × Heap). done q.0 (add_slab k c b flags)) cache_page)

  -- the three numbers that describe the new slab
  all_free :
      (flags : Flags) (ps : 0 < size) (m fuel : ℕ)
      → bufctl_count_max_for size ≡ suc (suc m)
      → page_size < fuel
      → let t = add_slab k c b flags in
        (free_list t.bufctls fuel (t.slabs (slab_at b)).freelist_head
          ≡ slots_from b size
              (bufctl_count_max_for size - (if flags.no_align then 1 else 0))
              (if flags.no_align then 1 else 0))
        × ((t.slabs (slab_at b)).bufctl_count
            ≡ bufctl_count_max_for size - (if flags.no_align then 1 else 0))
        × ((t.caches c).bufctl_count_max ≡ (t.slabs (slab_at b)).bufctl_count)
  all_free flags ps m fuel em enough =
      let page = slab-IsPage ps in
      let t = add_slab k c b flags in
      let first : ℕ = if flags.no_align then 1 else 0 in
      let le : first ≤ 1 = ground arith in
      let small = max-lt size ps in
      let l =
        add_slab-Listed c b size flags page k m
          (subst (λ n. IsReady c b size flags page k n) em (ready flags ps)) in
      let en : suc (suc m - first) ≡ bufctl_count_max_for size - first = omega arith in
      (
        free_list-Listed c b size (slab_at b) flags page t (suc (suc m) - first) first (suc m) fuel
              l (omega arith) (omega arith) (omega arith)
            ∙ ap (λ n. slots_from b size n first) en,
        l.counted ∙ ap (λ n. n - first) (sym em),
        l.max ∙ sym l.counted,
      )

  -- On a valid page allocator that has a page for the cache and one for its slab, the creation
  -- of a cache of an accepted size returns the cache; its slab has every object of its page on
  -- the free list, in the order of their addresses and without the first under SLAB_NO_ALIGN;
  -- and slab and cache count them. The fuel bounds the walk along the free list only; more than
  -- a page size of it is enough.
  pub slab_cache_create_lem :
      (flags : Flags) (fuel : ℕ)
      → accepts size ≡ true
      → page_size < fuel
      → (t : Heap) × (slab_cache_create h size flags ≡ done c t)
        × ((free_list t.bufctls fuel (t.slabs (slab_at b)).freelist_head
              ≡ slots_from b size
                  (bufctl_count_max_for size - (if flags.no_align then 1 else 0))
                  (if flags.no_align then 1 else 0))
            × ((t.slabs (slab_at b)).bufctl_count
                ≡ bufctl_count_max_for size - (if flags.no_align then 1 else 0))
            × ((t.caches c).bufctl_count_max ≡ (t.slabs (slab_at b)).bufctl_count))
  slab_cache_create_lem flags fuel ok enough =
      let many = enough_slots size ok in
      (
        add_slab k c b flags,
        created flags ok,
        all_free flags (accepts-pos size ok) (bufctl_count_max_for size - 2) fuel (omega arith)
            enough,
      )
