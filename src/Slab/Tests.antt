-- ===== src/Slab/Tests.antt =====
-- The slab allocator on eight pages of memory of which the first is in use.
use apopt_os.Base.{
  ℕ, ◌⊎◌, ◌-◌, ◌*◌, ◌<◌, ◌≡◌, ◌≢◌, true, false, refl, ◌==◌, if◌then◌else◌, arith, page_size, [],
  ◌∷◌,
}
use apopt_os.Pmm.Tests.{eight_pages, fresh-IsValid, first_page, second_page}
use apopt_os.Slab.Heap.{Flags, Heap, done, zero_cache, zero_slab, zero_bufctl, allocz_page}
use apopt_os.Slab.Ops.{
  slab_at, slab_create_bufctl_buffer, rewind, slab_cache_grow, slab_cache_alloc, slab_cache_free,
  is_power_of_two,
}
use apopt_os.Slab.Life.{bufctl_count_max_for, init_cache, slab_cache_create}
use apopt_os.Slab.Walk.{free_list, slots_from, SlabChain}
use apopt_os.Slab.Use.{Absent, slab_cache_alloc-slab_cache_free}
use apopt_os.Slab.Effect.{Unserved, Took, Gave, slab_cache_alloc-Took, slab_cache_free-Gave}
use apopt_os.Slab.Loss.{slab_cache_grow_drops}
use apopt_os.Slab.Create.{accepts, slab_cache_create_lem}

abbrev plain : Flags
plain = record { panic = false; auto_grow = false; no_align = false }

abbrev skipping : Flags
skipping = record { panic = true; auto_grow = true; no_align = true }

abbrev pub empty_heap : Heap
empty_heap = record {
  pmm = eight_pages 1 1;
  caches = λ _. zero_cache;
  slabs = λ _. zero_slab;
  bufctls = λ _. zero_bufctl;
}

abbrev with_cache : Heap
with_cache = (allocz_page empty_heap).1

abbrev before_slab : Heap
before_slab = rewind (init_cache with_cache 4096 64) 4096

cache_page : allocz_page empty_heap ≡ (page_size, with_cache)
unfolding allocz_page
cache_page = rw first_page refl

slab_page :
    slab_create_bufctl_buffer before_slab
    ≡ (2 * page_size, (slab_create_bufctl_buffer before_slab).1)
unfolding slab_create_bufctl_buffer allocz_page rewind init_cache
slab_page = rw (first_page, second_page) refl

accepts_64 : accepts 64 ≡ true
unfolding is_power_of_two
accepts_64 = refl

slab_cache_create_lem_example :
    (t : Heap) × (slab_cache_create empty_heap 64 skipping ≡ done page_size t)
    × ((free_list t.bufctls 5000 (t.slabs (slab_at (2 * page_size))).freelist_head
          ≡ slots_from (2 * page_size) 64 (bufctl_count_max_for 64 - 1) 1)
        × ((t.slabs (slab_at (2 * page_size))).bufctl_count ≡ bufctl_count_max_for 64 - 1)
        × ((t.caches page_size).bufctl_count_max
            ≡ (t.slabs (slab_at (2 * page_size))).bufctl_count))
slab_cache_create_lem_example =
    slab_cache_create_lem empty_heap page_size (2 * page_size) 64 fresh-IsValid (omega arith)
      (omega arith) cache_page slab_page skipping 5000 accepts_64 (omega arith)

some_64 : bufctl_count_max_for 64 ≡ 63
unfolding bufctl_count_max_for
some_64 = refl

-- A cache at 100 of one slab at 200, on whose free list are the objects at 1000 and 1064.
abbrev pub one_slab : Heap
one_slab = record {
  pmm = eight_pages 1 1;
  caches = λ x. record { slab_size = 64; bufctl_count_max = 3; slabs_head = 200; slabs = 200 };
  slabs = λ x. record {
    next = 0;
    bufctl_count = 2;
    bufctl_addr = 936;
    freelist_head = 1000;
    freelist = 1064;
  };
  bufctls =
      λ x. if x == 1000 then record { next = 1064; index = 1 } else record { next = 0; index = 2 };
}

pub one_chain : SlabChain one_slab 200 (200 ∷ [])
one_chain = (refl, omega arith, refl)

-- the only slab
abbrev slab_200 : ℕ
slab_200 = 200

slab_cache_alloc-Took_example :
    ((slab_200 ≡ 0) × Unserved one_slab 100 plain 0 (slab_cache_alloc 1 5 one_slab 100 plain))
    ⊎ ((0 < slab_200)
        × ((t : Heap) × (slab_cache_alloc 1 5 one_slab 100 plain ≡ done 1000 t)
            × Took 100 200 one_slab t))
slab_cache_alloc-Took_example =
    slab_cache_alloc-Took 5 one_slab 100 plain (200 ∷ []) (omega arith) one_chain (omega arith) 0
      refl

slab_cache_free-Gave_example :
    ((slab_200 ≡ 0) × Unserved one_slab 100 plain tt (slab_cache_free 5 one_slab 100 936 plain))
    ⊎ ((0 < slab_200)
        × ((t : Heap) × (slab_cache_free 5 one_slab 100 936 plain ≡ done tt t)
            × Gave 100 200 936 one_slab t))
slab_cache_free-Gave_example =
    slab_cache_free-Gave 5 one_slab 100 plain (200 ∷ []) (omega arith) one_chain (omega arith) 936

Absent-936 : Absent 936 (free_list one_slab.bufctls 4 1000)
unfolding free_list
Absent-936 = (omega arith, (omega arith, tt))

slab_cache_alloc-slab_cache_free_example :
    (t u : Heap) × (slab_cache_free 6 one_slab 100 936 plain ≡ done tt t)
    × (slab_cache_alloc 1 6 t 100 plain ≡ done 936 u)
    × (u.slabs 200 ≡ one_slab.slabs 200)
slab_cache_alloc-slab_cache_free_example =
    slab_cache_alloc-slab_cache_free 0 5 one_slab 100 936 plain (omega arith) (omega arith)
      (omega arith) refl (omega arith)

grown_page :
    slab_create_bufctl_buffer (rewind one_slab 100)
    ≡ (page_size, (slab_create_bufctl_buffer (rewind one_slab 100)).1)
unfolding slab_create_bufctl_buffer allocz_page rewind
grown_page = rw first_page refl

grown_at : (0 < slab_at page_size) × (200 ≢ slab_at page_size)
unfolding slab_at
grown_at = (omega arith, omega arith)

slab_cache_grow_drops_example :
    (t : Heap) × (slab_cache_grow one_slab 100 1 plain ≡ done tt t)
    × SlabChain t (t.caches 100).slabs_head (200 ∷ slab_at page_size ∷ [])
slab_cache_grow_drops_example =
    slab_cache_grow_drops one_slab 100 200 page_size plain (omega arith) refl (omega arith)
      grown_page (omega arith) refl grown_at.0 grown_at.1
