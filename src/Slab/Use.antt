-- ===== src/Slab/Use.antt =====
-- slab_cache_alloc, slab_cache_free and slab_cache_grow as their callers see them.
use apopt_os.Base.{
  ℕ, zero, suc, ◌+◌, ◌-◌, ◌/◌, ◌^◌, ◌<◌, ◌≡◌, ◌≢◌, ◌∙◌, Bool, true, false, refl, ap, u16, u64, ltb,
  ◌==◌, if◌then◌else◌, arith, Bool-cases, inl, inr, List, [], ◌∷◌, length,
}
use apopt_os.Slab.Heap.{Bufctl, Slab, Cache, Flags, Heap, done, halted, put}
use apopt_os.Slab.Ops.{
  first_slab, has_free, move_to, take_head, push_bufctl, slab_cache_alloc, slab_cache_free,
}
use apopt_os.Slab.Walk.{free_list, SlabChain, first_passing, first_slab-first_passing}

-- the test by which slab_cache_free chooses a slab
abbrev pub has_room : Cache → Slab → Bool
has_room cache s = ltb s.bufctl_count cache.bufctl_count_max

-- `p` is not on the list.
abbrev pub Absent : ℕ → List ℕ → Type 0
Absent p [] = Unit {0}
Absent p (x ∷ xs) = (x ≢ p) × Absent p xs

-- What slab_cache_alloc does on a cache that is not null without SLAB_AUTO_GROW, on every
-- branch: with more fuel than slabs it takes the head of the first slab that has a free object;
-- if there is none it halts under SLAB_PANIC and returns null otherwise.
pub slab_cache_alloc-first_passing :
    (depth fuel : ℕ) (h : Heap) (c : ℕ) (flags : Flags) (xs : List ℕ)
    → 0 < c
    → flags.auto_grow ≡ false
    → SlabChain h (h.caches c).slabs_head xs
    → length xs < fuel
    → slab_cache_alloc (suc depth) fuel h c flags ≡ (
        let s = first_passing has_free h xs in
        if s == 0
        then if flags.panic then halted else done 0 (move_to h c 0)
        else done (h.slabs s).freelist_head (take_head (move_to h c s) s))
unfolding slab_cache_alloc
slab_cache_alloc-first_passing depth fuel h c flags xs pos no_grow chain enough =
    let ne : (c == 0) ≡ false = ground arith in
    rw (ne, first_slab-first_passing has_free h fuel _ xs chain enough)
      (elim (Bool-cases (first_passing has_free h xs == 0)) [
        | inl e ↦ rw (e, no_grow)
        | inr e ↦ rw e
      ])

-- What slab_cache_free does on a cache that is not null, on every branch, with more fuel than
-- slabs: whichever slab the object came from, it goes to the first slab with room; if there is
-- none the call halts under SLAB_PANIC and drops the object otherwise.
pub slab_cache_free-first_passing :
    (fuel : ℕ) (h : Heap) (c p : ℕ) (flags : Flags) (xs : List ℕ)
    → 0 < c
    → SlabChain h (h.caches c).slabs_head xs
    → length xs < fuel
    → slab_cache_free fuel h c p flags ≡ (
        let s = first_passing (has_room (h.caches c)) h xs in
        if s == 0
        then if flags.panic then halted else done tt (move_to h c 0)
        else done tt (push_bufctl (move_to h c s) c s p))
unfolding slab_cache_free
slab_cache_free-first_passing fuel h c p flags xs pos chain enough =
    let ne : (c == 0) ≡ false = ground arith in
    rw (ne, first_slab-first_passing (has_room (h.caches c)) h fuel _ xs chain enough)

-- An object that is taken from a slab is the first of its free list, is not null, and the rest
-- of the list stays.
pub take_head_lem :
    (h : Heap) (s p fuel : ℕ) {rest : List ℕ}
    → free_list h.bufctls (suc fuel) (h.slabs s).freelist_head ≡ p ∷ rest
    → ((h.slabs s).freelist_head ≡ p)
      × (0 < p)
      × (free_list (take_head h s).bufctls fuel ((take_head h s).slabs s).freelist_head ≡ rest)
unfolding take_head free_list
take_head_lem h s p fuel e = (ground arith, ground arith, ground arith)

-- An object that is put back stands in front of the free list that the slab had, if it was not on it.
free_list-put :
    (bufctls : ℕ → Bufctl) (p : ℕ) (v : Bufctl) (fuel q : ℕ)
    → Absent p (free_list bufctls fuel q)
    → free_list (put bufctls p v) fuel q ≡ free_list bufctls fuel q
unfolding free_list
free_list-put bufctls p v zero q absent = refl
free_list-put bufctls p v (suc fuel) q absent = elim (Bool-cases (q == 0)) [
  | inl end ↦ rw end
  | inr more ↦ ground (arith, absent, free_list-put bufctls p v fuel (bufctls q).next)
]

abbrev new_bufctl : Heap → ℕ → ℕ → ℕ → Bufctl
new_bufctl h c s p = record {
  next = (h.slabs s).freelist_head;
  index = u16 (u64 (p + 2 ^ 64 - (h.slabs s).bufctl_addr) / (h.caches c).slab_size);
}

-- An object other than null that is put back stands in front of the free list that the slab had,
-- if it was not on that list.
pub push_bufctl_lem :
    (h : Heap) (c s p fuel : ℕ)
    → 0 < p
    → Absent p (free_list h.bufctls fuel (h.slabs s).freelist_head)
    → free_list
        (push_bufctl h c s p).bufctls
        (suc fuel)
        ((push_bufctl h c s p).slabs s).freelist_head
      ≡ p ∷ free_list h.bufctls fuel (h.slabs s).freelist_head
unfolding push_bufctl free_list
push_bufctl_lem h c s p fuel pos absent =
    ground (arith, free_list-put h.bufctls p (new_bufctl h c s p) fuel (h.slabs s).freelist_head)

pub alloc_from_head :
    (depth fuel : ℕ) (t : Heap) (c s : ℕ) (flags : Flags)
    → 0 < c
    → (t.caches c).slabs_head ≡ s
    → 0 < s
    → 0 < (t.slabs s).freelist_head
    → slab_cache_alloc (suc depth) (suc fuel) t c flags
      ≡ done (t.slabs s).freelist_head (take_head (move_to t c s) s)
unfolding slab_cache_alloc first_slab
alloc_from_head depth fuel t c s flags pc e ps pf =
    let ne : (c == 0) ≡ false = ground arith in
    let ns : (s == 0) ≡ false = ground arith in
    let nf : ((t.slabs s).freelist_head == 0) ≡ false = ground arith in rw (ne, e, ns, nf, ns)

pub free_to_head :
    (fuel : ℕ) (h : Heap) (c s p : ℕ) (flags : Flags)
    → 0 < c
    → (h.caches c).slabs_head ≡ s
    → 0 < s
    → has_room (h.caches c) (h.slabs s) ≡ true
    → slab_cache_free (suc fuel) h c p flags ≡ done tt (push_bufctl (move_to h c s) c s p)
unfolding slab_cache_free first_slab
free_to_head fuel h c s p flags pc e ps room =
    let ne : (c == 0) ≡ false = ground arith in
    let ns : (s == 0) ≡ false = ground arith in rw (ne, e, ns, room, ns)

pushed :
    (h : Heap) (c s p : ℕ)
    → 0 < p
    → (h.slabs s).bufctl_count + 1 < 2 ^ 64
    → let t = push_bufctl (move_to h c s) c s p in
      ((t.caches c).slabs_head ≡ (h.caches c).slabs_head)
      × ((t.slabs s).freelist_head ≡ p)
      × ((take_head (move_to t c s) s).slabs s ≡ h.slabs s)
unfolding push_bufctl take_head move_to
pushed h c s p pp small = (ground arith, ground arith, ground arith)

-- Where the first slab of a cache has room and its counter does not wrap: freeing an object
-- returns, the next allocation hands out that object, and the first slab is then as it was
-- before.
pub slab_cache_alloc-slab_cache_free :
    (depth fuel : ℕ) (h : Heap) (c p : ℕ) (flags : Flags)
    → 0 < c
    → 0 < p
    → 0 < (h.caches c).slabs_head
    → has_room (h.caches c) (h.slabs (h.caches c).slabs_head) ≡ true
    → (h.slabs (h.caches c).slabs_head).bufctl_count + 1 < 2 ^ 64
    → (t u : Heap) × (slab_cache_free (suc fuel) h c p flags ≡ done tt t)
      × (slab_cache_alloc (suc depth) (suc fuel) t c flags ≡ done p u)
      × (u.slabs (h.caches c).slabs_head ≡ h.slabs (h.caches c).slabs_head)
slab_cache_alloc-slab_cache_free depth fuel h c p flags pc pp ps room small =
    let s = (h.caches c).slabs_head in
    let t = push_bufctl (move_to h c s) c s p in
    let (head, links, back) = pushed h c s p pp small in
    (
      t,
      take_head (move_to t c s) s,
      free_to_head fuel h c s p flags pc refl ps room,
      alloc_from_head depth fuel t c s flags pc head ps (rw links pp)
          ∙ ap (λ q. done q (take_head (move_to t c s) s)) links,
      back,
    )
