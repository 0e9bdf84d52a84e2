-- ===== src/Slab/Supply.antt =====
-- slab_cache_create of src/kernel/memory/dynamic/slab.c on a page frame allocator with two free pages.
use apopt_os.Base.{
  ℕ, ◌+◌, ◌%◌, ◌<◌, ◌≤◌, ◌≡◌, ◌≢◌, ◌∙◌, sym, ap, subst, true, false, refl, ◌==◌, arith, Bool-cases,
  inl, inr, page_size, page_to_bit,
}
use apopt_os.Bitmap.{Bitmap, is_set}
use apopt_os.Str.Laws.{within}
use apopt_os.Pmm.{Pmm, pmm_alloc}
use apopt_os.Pmm.Safety.{pmm_alloc_one}
use apopt_os.Pmm.Supply.{free_pages, IsSound, Given, pmm_alloc-free_pages, pmm_alloc-Spent}
use apopt_os.Slab.Heap.{Cache, Flags, Heap, done, allocz_page}
use apopt_os.Slab.Ops.{slab_create_bufctl_buffer, add_slab, rewind}
use apopt_os.Slab.Life.{init_cache, slab_cache_create}
use apopt_os.Slab.Create.{accepts, new_cache, created}
use apopt_os.Slab.Frame.{add_slab-Framed, started-Framed}

-- whether the page of an address is in use
abbrev pub InUse : Pmm → ℕ → Type 0
InUse p x = is_set p.bitmap (page_to_bit x) ≡ true

apart-used :
    (bits : Bitmap) (a x : ℕ)
    → a % page_size ≡ 0
    → is_set bits (page_to_bit a) ≡ false
    → is_set bits (page_to_bit x) ≡ true
    → within a page_size x ≡ false
apart-used bits a x al free used = elim (Bool-cases (within a page_size x)) [
  | inr outside ↦ outside
  | inl inside ↦
      let same : page_to_bit x ≡ page_to_bit a = ground (arith, inside) in
      absurd (ground (arith, sym used ∙ ap (is_set bits) same ∙ free))
]

-- A page taken by the slab allocator, with the address and the state after it.
record Taken (h : Heap) (a : ℕ) (g : Heap) : Type 0 where
  some_page : 0 < a
  page : pmm_alloc h.pmm 1 ≡ (g.pmm, a)
  sound : IsSound g.pmm
  less : free_pages g.pmm + 1 ≡ free_pages h.pmm
  was_free : is_set h.pmm.bitmap (page_to_bit a) ≡ false
  now_used : InUse g.pmm a
  still_used : (x : ℕ) → InUse h.pmm x → InUse g.pmm x
  caches : (x : ℕ) → InUse h.pmm x → g.caches x ≡ h.caches x

taken :
    (h g : Heap) (a : ℕ)
    → IsSound h.pmm
    → 0 < free_pages h.pmm
    → pmm_alloc h.pmm 1 ≡ (g.pmm, a)
    → ((x : ℕ) → within a page_size x ≡ false → g.caches x ≡ h.caches x)
    → Taken h a g
taken h g a s some_left e frame = elim (pmm_alloc-free_pages h.pmm s) [
  | inl (r, none_left) ↦ absurd (omega (arith, some_left, none_left))
  | inr given ↦
      let (pos, less, count, same) = subst (Given h.pmm) e given in
      let (al, low, free, bits) = pmm_alloc_one h.pmm s.pages e pos in
      record {
        some_page = pos;
        page = e;
        sound = subst (λ (r : Pmm × ℕ). IsSound r.0) e (pmm_alloc-Spent h.pmm s).sound;
        less = less;
        was_free = free;
        now_used = ground (arith, bits (page_to_bit a));
        still_used = λ x used. ground (arith, bits (page_to_bit x), used);
        caches = λ x used. frame x (apart-used h.pmm.bitmap a x al free used);
      }
]

allocz_page-Taken :
    (h : Heap) → IsSound h.pmm → 0 < free_pages h.pmm → Taken h (allocz_page h).0 (allocz_page h).1
unfolding allocz_page
allocz_page-Taken h s some_left = taken h _ _ s some_left refl (λ x outside. rw outside refl)

buffer-Taken :
    (h : Heap)
    → IsSound h.pmm
    → 0 < free_pages h.pmm
    → Taken h (slab_create_bufctl_buffer h).0 (slab_create_bufctl_buffer h).1
unfolding slab_create_bufctl_buffer
buffer-Taken h s some_left =
    let t = allocz_page-Taken h s some_left in
    let pos = t.some_page in
    let not_null : ((allocz_page h).0 == 0) ≡ false = ground (arith, pos) in
    rw not_null (record {
      some_page = t.some_page;
      page = t.page;
      sound = t.sound;
      less = t.less;
      was_free = t.was_free;
      now_used = t.now_used;
      still_used = t.still_used;
      caches = t.caches;
    })

-- A cache that has been made on two pages that were free.
pub record Made (h : Heap) (size c : ℕ) (t : Heap) : Type 0 where
  pub some_cache : 0 < c
  pub sound : IsSound t.pmm
  pub less : free_pages t.pmm + 2 ≡ free_pages h.pmm
  pub object_size : (t.caches c).slab_size ≡ size
  pub now_used : InUse t.pmm c
  pub still_used : (x : ℕ) → InUse h.pmm x → InUse t.pmm x
  pub caches : (x : ℕ) → InUse h.pmm x → t.caches x ≡ h.caches x

pub slab_cache_create-Made :
    (h : Heap) (size : ℕ) (flags : Flags)
    → accepts size ≡ true
    → IsSound h.pmm
    → 2 ≤ free_pages h.pmm
    → (c : ℕ) × (t : Heap) × (slab_cache_create h size flags ≡ done c t) × Made h size c t
slab_cache_create-Made h size flags ok s two =
    let (c, g) = allocz_page h in
    let one = allocz_page-Taken h s (omega (arith, two)) in
    let start = rewind (init_cache g c size) c in
    let same : start.pmm ≡ g.pmm = unfold rewind init_cache in refl in
    let (b, k) = slab_create_bufctl_buffer start in
    let other =
      buffer-Taken start (subst IsSound (sym same) one.sound)
        (omega (arith, ap free_pages same, one.less, two)) in
    let f = add_slab-Framed k b flags in
    let used_in_start : (x : ℕ) → InUse g.pmm x → InUse start.pmm x =
      λ x used. subst (λ p. InUse p x) (sym same) used in
    let used_in_end : (x : ℕ) → InUse k.pmm x → InUse (add_slab k c b flags).pmm x =
      λ x used. subst (λ p. InUse p x) (sym f.pmm) used in
    (
      c,
      add_slab k c b flags,
      created h c b size s.pages one.some_page other.some_page refl refl flags ok,
      record {
        some_cache = one.some_page;
        sound = subst IsSound (sym f.pmm) other.sound;
        less = omega (arith, ap free_pages f.pmm, other.less, ap free_pages same, one.less);
        object_size =
            f.size
            ∙ ap (λ (r : Cache). r.slab_size) (other.caches c (used_in_start c one.now_used))
            ∙ (new_cache h c size refl one.some_page).0;
        now_used = used_in_end c (other.still_used c (used_in_start c one.now_used));
        still_used =
            λ x used. used_in_end x (other.still_used x (used_in_start x (one.still_used x used)));
        caches = λ x used.
            let ne : x ≢ c = λ e.
              ground (
                arith,
                sym used ∙ ap (λ y. is_set h.pmm.bitmap (page_to_bit y)) e ∙ one.was_free,
              ) in
            f.others x ne
            ∙ other.caches x (used_in_start x (one.still_used x used))
            ∙ started-Framed g size x ne
            ∙ one.caches x used;
      },
    )
