-- ===== src/Slab/Frame.antt =====
-- What adding a slab in src/kernel/memory/dynamic/slab.c leaves of the caches and the page frame
-- allocator.
use apopt_os.Base.{
  ℕ, zero, suc, ◌+◌, ◌%◌, ◌≡◌, ◌≢◌, ◌∙◌, ◌&&◌, refl, ◌==◌, arith, Bool-cases, inl, inr,
}
use apopt_os.Slab.Heap.{Flags, Heap}
use apopt_os.Slab.Ops.{
  slot, skip_slot, append_slot, slab_init_bufctls, init_bufctls, link_slab, slab_create_slab,
  add_slab, rewind,
}
use apopt_os.Slab.Life.{init_cache}

-- The other caches and the page frame allocator stay, and so does the object size.
pub record Framed (c : ℕ) (h t : Heap) : Type 0 where
  pub pmm : t.pmm ≡ h.pmm
  pub others : (x : ℕ) → x ≢ c → t.caches x ≡ h.caches x
  pub size : (t.caches c).slab_size ≡ (h.caches c).slab_size

module _ {c : ℕ} where
  Framed-trans : {h t u : Heap} → Framed c h t → Framed c t u → Framed c h u
  Framed-trans a b = record {
    pmm = b.pmm ∙ a.pmm;
    others = λ x ne. b.others x ne ∙ a.others x ne;
    size = b.size ∙ a.size;
  }

  skip_slot-Framed : (h : Heap) → Framed c h (skip_slot h c)
  unfolding skip_slot
  skip_slot-Framed h = record {
    pmm = ground arith;
    others = λ x ne. ground arith;
    size = ground arith;
  }

  append_slot-Framed : (h : Heap) (new : ℕ) → Framed c h (append_slot h c new)
  unfolding append_slot
  append_slot-Framed h new = elim (Bool-cases ((h.slabs (h.caches c).slabs).freelist == 0)) [
    | inl first ↦ rw first (record { pmm = refl; others = λ x ne. refl; size = refl })
    | inr later ↦ rw later (record { pmm = refl; others = λ x ne. refl; size = refl })
  ]

  slab_init_bufctls-Framed :
      (h : Heap) (b i : ℕ) (flags : Flags) → Framed c h (slab_init_bufctls h c b i flags)
  unfolding slab_init_bufctls
  slab_init_bufctls-Framed h b i flags =
      elim (Bool-cases (flags.no_align && slot b (h.caches c).slab_size i % 4096 == 0)) [
        | inl skipped ↦
            rw skipped (
              let f = skip_slot-Framed _ in
              record { pmm = f.pmm; others = f.others; size = f.size })
        | inr listed ↦ rw listed (
            let f = append_slot-Framed _ _ in
            record { pmm = f.pmm; others = f.others; size = f.size })
      ]

  init_bufctls-Framed :
      (h : Heap) (b : ℕ) (flags : Flags) (n i : ℕ) → Framed c h (init_bufctls h c b flags n i)
  unfolding init_bufctls
  init_bufctls-Framed h b flags zero i = record { pmm = refl; others = λ x ne. refl; size = refl }
  init_bufctls-Framed h b flags (suc n) i =
      Framed-trans (slab_init_bufctls-Framed h b i flags)
        (init_bufctls-Framed (slab_init_bufctls h c b i flags) b flags n (i + 1))

  slab_create_slab-Framed : (h : Heap) (b : ℕ) → Framed c h (slab_create_slab h c b)
  unfolding slab_create_slab link_slab
  slab_create_slab-Framed h b = elim (Bool-cases ((h.caches c).slabs == 0)) [
    | inl first ↦
        rw first (record { pmm = refl; others = λ x ne. ground arith; size = ground arith })
    | inr later ↦
        rw later (record { pmm = refl; others = λ x ne. ground arith; size = ground arith })
  ]

  pub add_slab-Framed : (h : Heap) (b : ℕ) (flags : Flags) → Framed c h (add_slab h c b flags)
  unfolding add_slab
  add_slab-Framed h b flags =
      Framed-trans (slab_create_slab-Framed h b) (init_bufctls-Framed _ b flags _ 0)

  pub started-Framed :
      (h : Heap) (size x : ℕ) → x ≢ c → (rewind (init_cache h c size) c).caches x ≡ h.caches x
  unfolding rewind init_cache
  started-Framed h size x ne = ground arith
