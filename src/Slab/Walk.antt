-- ===== src/Slab/Walk.antt =====
-- Walks over the two linked lists of slab.c: the slabs of a cache and the free list of a slab.
use apopt_os.Base.{
  ℕ, zero, suc, ◌+◌, ◌-◌, ◌<◌, ◌≤◌, ◌≡◌, ◌∙◌, Bool, false, refl, ◌==◌, if◌then◌else◌, arith, List,
  [], ◌∷◌, length, some,
}
use apopt_os.Slab.Heap.{Bufctl, Slab, Flags, Heap}
use apopt_os.Slab.Ops.{slot, first_slab, slab_init_bufctls, init_bufctls, append_slot, skip_slot}
use apopt_os.Slab.Life.{bufctl_count_max_for}
use apopt_os.Slab.Fill.{IsPage, Listed, slot-pos}

-- The objects that slab_cache_dump prints of a free list that starts at `p`.
unfoldable pub free_list : (ℕ → Bufctl) → ℕ → ℕ → List ℕ
free_list bufctls zero p = []
free_list bufctls (suc fuel) p =
    let rest = free_list bufctls fuel (bufctls p).next in if p == 0 then [] else p ∷ rest

-- `n` objects of a page from index `i` on, in the order of their addresses
unfoldable pub slots_from : ℕ → ℕ → ℕ → ℕ → List ℕ
slots_from b size zero i = []
slots_from b size (suc n) i = slot b size i ∷ slots_from b size n (i + 1)

module _ (c b size s : ℕ) (flags : Flags) (page : IsPage b size) where
  free_list_from :
      (h : Heap) (count first last n i fuel : ℕ)
      → Listed c b size s flags page h count first last
      → first ≤ i
      → i + n ≡ last
      → last < bufctl_count_max_for size
      → n + 1 < fuel
      → free_list h.bufctls fuel (slot b size i) ≡ slots_from b size (suc n) i
  unfolding free_list slots_from
  free_list_from h count first last n i zero l lo e room enough = absurd (omega arith)
  free_list_from h count first last zero i (suc zero) l lo e room enough = absurd (omega arith)
  free_list_from h count first last zero i (suc (suc fuel)) l lo e room enough =
      ground (arith, slot-pos i page, l.fresh i)
  free_list_from h count first last (suc n) i (suc fuel) l lo e room enough =
      let pos = slot-pos i page (omega arith) in
      let ne : (slot b size i == 0) ≡ false = ground arith in
      rw (
        ne,
        l.links i lo (omega arith),
        free_list_from h count first last n (i + 1) fuel l (omega arith) (omega arith) room
            (omega arith),
      )

  -- The free list of a listed slab, as a walk along the links sees it.
  pub free_list-Listed :
      (h : Heap) (count first last fuel : ℕ)
      → Listed c b size s flags page h count first last
      → first ≤ last
      → last < bufctl_count_max_for size
      → last + 2 < fuel + first
      → free_list h.bufctls fuel (h.slabs s).freelist_head
        ≡ slots_from b size (suc (last - first)) first
  free_list-Listed h count first last fuel l le room enough = rw l.head (
      free_list_from h count first last (last - first) first fuel l (omega arith) (omega arith) room
        (omega arith))

-- The slabs of a cache from `s` on are `xs`.
abbrev pub SlabChain : Heap → ℕ → List ℕ → Type 0
SlabChain h s [] = s ≡ 0
SlabChain h s (x ∷ xs) = (s ≡ x) × (0 < x) × SlabChain h (h.slabs x).next xs

-- the first slab of a list that passes the test, or null
abbrev pub first_passing : (Slab → Bool) → Heap → List ℕ → ℕ
first_passing test h [] = 0
first_passing test h (x ∷ xs) = if test (h.slabs x) then x else first_passing test h xs

-- With more fuel than slabs the walk ends, at the first slab that passes the test.
pub first_slab-first_passing :
    (test : Slab → Bool) (h : Heap) (fuel s : ℕ) (xs : List ℕ)
    → SlabChain h s xs
    → length xs < fuel
    → first_slab test h fuel s ≡ some (first_passing test h xs)
unfolding first_slab
first_slab-first_passing test h zero s xs chain enough = absurd (omega arith)
first_slab-first_passing test h (suc fuel) s [] chain enough = ground arith
first_slab-first_passing test h (suc fuel) s (x ∷ xs) chain enough =
    ground (arith, chain, first_slab-first_passing test h fuel (h.slabs x).next xs)

-- The loop that fills a page leaves the links between slabs and the head of the cache alone.
pub slab_init_bufctls-links :
    (h : Heap) (c b i : ℕ) (flags : Flags) (x : ℕ)
    → (((slab_init_bufctls h c b i flags).slabs x).next ≡ (h.slabs x).next)
      × (((slab_init_bufctls h c b i flags).caches c).slabs_head ≡ (h.caches c).slabs_head)
unfolding slab_init_bufctls append_slot skip_slot
slab_init_bufctls-links h c b i flags x = ground arith

pub init_bufctls-links :
    (h : Heap) (c b : ℕ) (flags : Flags) (n i x : ℕ)
    → (((init_bufctls h c b flags n i).slabs x).next ≡ (h.slabs x).next)
      × (((init_bufctls h c b flags n i).caches c).slabs_head ≡ (h.caches c).slabs_head)
unfolding init_bufctls
init_bufctls-links h c b flags zero i x = (refl, refl)
init_bufctls-links h c b flags (suc n) i x =
    let (later_next, later_head) =
      init_bufctls-links (slab_init_bufctls h c b i flags) c b flags n (i + 1) x in
    let (now_next, now_head) = slab_init_bufctls-links h c b i flags x in
    (later_next ∙ now_next, later_head ∙ now_head)
