-- ===== src/Slab/Loss.antt =====
-- slab_cache_grow on a cache that has slabs already: it links behind the first slab.
use apopt_os.Base.{ℕ, ◌<◌, ◌≡◌, ◌≢◌, ◌∙◌, false, refl, ap, ◌==◌, arith, page_size, [], ◌∷◌}
use apopt_os.Slab.Heap.{Cache, Flags, Heap, done, allocz_page}
use apopt_os.Str.Laws.{within}
use apopt_os.Slab.Ops.{
  slab_at, slab_create_bufctl_buffer, link_slab, slab_create_slab, add_slab, grow_loop, rewind,
  slab_cache_grow,
}
use apopt_os.Slab.Walk.{SlabChain, init_bufctls-links}

-- The new slab ends the chain of the first one.
slab_create_slab-links :
    (h : Heap) (c b s : ℕ)
    → (h.caches c).slabs ≡ s
    → 0 < s
    → s ≢ slab_at b
    → (((slab_create_slab h c b).slabs s).next ≡ slab_at b)
      × (((slab_create_slab h c b).slabs (slab_at b)).next ≡ 0)
      × (((slab_create_slab h c b).caches c).slabs_head ≡ (h.caches c).slabs_head)
unfolding slab_create_slab link_slab
slab_create_slab-links h c b s e pos ne = (ground arith, ground arith, ground arith)

-- A cache that is not on the new page keeps its fields when the page is allocated.
module _ (h : Heap) (c b : ℕ) {g : Heap} (page : slab_create_bufctl_buffer h ≡ (b, g)) (pb : 0 < b)
    (away : within b page_size c ≡ false) where
  pub buffer-caches : g.caches c ≡ h.caches c
  unfolding slab_create_bufctl_buffer allocz_page
  buffer-caches = ground arith

  buffer-head : (g.caches c).slabs_head ≡ (h.caches c).slabs_head
  buffer-head = ap (λ (k : Cache). k.slabs_head) buffer-caches

  buffer-slabs : (g.caches c).slabs ≡ (h.caches c).slabs
  buffer-slabs = ap (λ (k : Cache). k.slabs) buffer-caches

rewind-head : (h : Heap) (c : ℕ) → ((rewind h c).caches c).slabs_head ≡ (h.caches c).slabs_head
unfolding rewind
rewind-head h c = ground arith

rewind-slabs : (h : Heap) (c : ℕ) → ((rewind h c).caches c).slabs ≡ (h.caches c).slabs_head
unfolding rewind
rewind-slabs h c = ground arith

-- On a cache with a first slab `s`, where the page allocator has a page, the growth by one slab
-- returns, and the slabs of the cache are then `s` and the new one only: every slab that was
-- behind `s` is no longer reached. The conditions are that cache and slab are not null, the
-- cache is not on the new page, and `s` is not the new slab.
pub slab_cache_grow_drops :
    (h : Heap) (c s b : ℕ) (flags : Flags) {g : Heap}
    → 0 < c
    → (h.caches c).slabs_head ≡ s
    → 0 < s
    → slab_create_bufctl_buffer (rewind h c) ≡ (b, g)
    → 0 < b
    → within b page_size c ≡ false
    → 0 < slab_at b
    → s ≢ slab_at b
    → (t : Heap) × (slab_cache_grow h c 1 flags ≡ done tt t)
      × SlabChain t (t.caches c).slabs_head (s ∷ slab_at b ∷ [])
unfolding slab_cache_grow grow_loop add_slab
slab_cache_grow_drops h c s b flags {g} pc eh ps page pb away pn ne =
    let eg : (g.caches c).slabs_head ≡ s =
      buffer-head (rewind h c) c b page pb away ∙ rewind-head h c ∙ eh in
    let ec : (g.caches c).slabs ≡ s =
      buffer-slabs (rewind h c) c b page pb away ∙ rewind-slabs h c ∙ eh in
    let nc : (c == 0) ≡ false = ground arith in
    let nb : (b == 0) ≡ false = ground arith in
    let created = slab_create_slab g c b in
    let (to_new, ends, head) = slab_create_slab-links g c b s ec ps ne in
    let max = (created.caches c).bufctl_count_max in
    let (next_s, kept_head) = init_bufctls-links created c b flags max 0 s in
    let (next_new, _) = init_bufctls-links created c b flags max 0 (slab_at b) in
    (
      add_slab g c b flags,
      rw (nc, page, nb) refl,
      (kept_head ∙ head ∙ eg, ps, (next_s ∙ to_new, pn, next_new ∙ ends)),
    )
