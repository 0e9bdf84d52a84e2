-- ===== src/Slab/Grow.antt =====
-- slab_cache_grow: what a new slab looks like, and what becomes of the slabs before it.
use apopt_os.Base.{
  ℕ, suc, ◌+◌, ◌-◌, ◌%◌, ◌^◌, ◌<◌, ◌≤◌, ◌≡◌, ◌≢◌, true, false, ◌&&◌, refl, ◌==◌, if◌then◌else◌,
  arith, Bool-cases, inl, inr,
}
use apopt_os.Slab.Heap.{Flags, Heap}
use apopt_os.Slab.Ops.{
  slot, slab_at, slab_init_bufctls, init_bufctls, link_slab, slab_create_slab, add_slab,
}
use apopt_os.Slab.Life.{bufctl_count_max_for}
use apopt_os.Slab.Layout.{max-lt}
use apopt_os.Slab.Fill.{
  IsPage, Listed, Bare, Bare-start, Bare-skip, slot-aligned_iff, init_bufctls-Listed,
}

module _ (c b size : ℕ) (flags : Flags) (page : IsPage b size) where
  -- A page whose objects read as zeros, for cache `c`, whose current slab is not on it.
  pub record IsReady (h : Heap) (count : ℕ) : Type 0 where
    pub object_size : (h.caches c).slab_size ≡ size
    pub max : (h.caches c).bufctl_count_max ≡ count
    pub room : count ≤ bufctl_count_max_for size
    pub elsewhere : (h.caches c).slabs ≢ slab_at b
    pub zeroed : (i : ℕ) → i < bufctl_count_max_for size → (h.bufctls (slot b size i)).next ≡ 0

  slab_create_slab-Bare :
      (h : Heap) (count : ℕ)
      → 0 < bufctl_count_max_for size
      → IsReady h count
      → Bare c b size (slab_at b) flags page (slab_create_slab h c b) count
  unfolding slab_create_slab link_slab
  slab_create_slab-Bare h count some_slot r = elim (Bool-cases ((h.caches c).slabs == 0)) [
    | inl first ↦ rw first (record {
      cur = ground arith;
      object_size = ground (arith, r.object_size);
      max = ground (arith, r.max);
      counted = ground (arith, r.max);
      addr = ground arith;
      last_slab = ground arith;
      none_listed = ground arith;
      fresh = r.zeroed;
    })
    | inr later ↦ rw later (record {
      cur = ground arith;
      object_size = ground (arith, r.object_size);
      max = ground (arith, r.max);
      counted = ground (arith, r.max, r.elsewhere);
      addr = ground (arith, r.elsewhere);
      last_slab = ground (arith, r.elsewhere);
      none_listed = ground (arith, r.elsewhere);
      fresh = r.zeroed;
    })
  ]

  -- the index of the first object on the free list
  abbrev pub first_index : ℕ
  first_index = if flags.no_align then 1 else 0

  fill_all :
      (h : Heap) (count k : ℕ)
      → suc k < bufctl_count_max_for size
      → flags.no_align ≡ false
      → Bare c b size (slab_at b) flags page h count
      → Listed c b size
          (slab_at b)
          flags
          page
          (init_bufctls h c b flags (suc (suc k)) 0)
          count
          0
          (0 + suc k)
  unfolding init_bufctls
  fill_all h count k lt all bare =
      init_bufctls-Listed c b size (slab_at b) flags page (suc k) (slab_init_bufctls h c b 0 flags)
        count 0 0 (omega arith) (omega arith)
        (Bare-start c b size (slab_at b) flags page h count 0 (omega arith) (rw all refl) bare)

  renumber :
      {h : Heap} {n n' f f' l l' : ℕ}
      → n ≡ n'
      → f ≡ f'
      → l ≡ l'
      → Listed c b size (slab_at b) flags page h n f l
      → Listed c b size (slab_at b) flags page h n' f' l'
  renumber en ef el listed = rw (← en, ← ef, ← el) listed

  not_skipped :
      (i : ℕ)
      → 0 < i
      → i < bufctl_count_max_for size
      → (flags.no_align && slot b size i % 4096 == 0) ≡ false
  not_skipped i pos lt = ground (arith, slot-aligned_iff i page lt)

  fill_but_first :
      (h : Heap) (count k : ℕ)
      → suc k < bufctl_count_max_for size
      → 0 < count
      → count < 2 ^ 64
      → flags.no_align ≡ true
      → Bare c b size (slab_at b) flags page h count
      → Listed c b size
          (slab_at b)
          flags
          page
          (init_bufctls h c b flags (suc (suc k)) 0)
          (count - 1)
          1
          (1 + k)
  unfolding init_bufctls
  fill_but_first h count k lt pos small na bare =
      let h1 = slab_init_bufctls h c b 0 flags in
      init_bufctls-Listed c b size (slab_at b) flags page k (slab_init_bufctls h1 c b 1 flags)
        (count - 1) 1 1 (omega arith) (omega arith)
        (Bare-start c b size (slab_at b) flags page h1 (count - 1) 1 (omega arith)
          (not_skipped 1 (omega arith) (omega arith))
          (Bare-skip c b size (slab_at b) flags page h count (omega arith) pos small na bare))

  -- The new slab's free list holds all objects of its page in the order of their addresses; with
  -- SLAB_NO_ALIGN the first one is left out, and the counts are one less.
  pub add_slab-Listed :
      (h : Heap) (k : ℕ)
      → IsReady h (suc (suc k))
      → Listed c b size
          (slab_at b)
          flags
          page
          (add_slab h c b flags)
          (suc (suc k) - first_index)
          first_index
          (suc k)
  unfolding add_slab
  add_slab-Listed h k r =
      let size_pos = page.pos in
      let small = max-lt size page.pos in
      let bare = slab_create_slab-Bare h (suc (suc k)) (omega (arith, r.room)) r in
      let room = r.room in
      rw bare.max (elim (Bool-cases flags.no_align) [
        | inl na ↦ renumber (ground (arith, na)) (ground (arith, na)) (omega arith) (
            fill_but_first (slab_create_slab h c b) (suc (suc k)) k (omega arith) (omega arith)
              (omega arith) na bare)
        | inr all ↦
            renumber (ground (arith, all)) (ground (arith, all)) (omega arith)
              (fill_all (slab_create_slab h c b) (suc (suc k)) k (omega arith) all bare)
      ])
