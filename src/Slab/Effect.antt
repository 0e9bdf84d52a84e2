-- ===== src/Slab/Effect.antt =====
-- What slab_cache_alloc and slab_cache_free of src/kernel/memory/dynamic/slab.c change, field by field.
use apopt_os.Base.{
  ℕ, suc, ◌+◌, ◌-◌, ◌/◌, ◌%◌, ◌^◌, ◌<◌, ◌≡◌, ◌≢◌, ◌⊎◌, Bool, true, false, refl, ltb, ◌==◌,
  if◌then◌else◌, arith, Bool-cases, inl, inr, List, [], ◌∷◌, length,
}
use apopt_os.Slab.Heap.{Slab, Flags, Heap, Outcome, done, halted}
use apopt_os.Slab.Ops.{has_free, move_to, take_head, push_bufctl, slab_cache_alloc, slab_cache_free}
use apopt_os.Slab.Walk.{SlabChain, first_passing}
use apopt_os.Slab.Use.{slab_cache_alloc-first_passing, slab_cache_free-first_passing}

-- The cache's current slab becomes `s`, and the other caches and the page frame allocator stay.
pub record Moved (c s : ℕ) (h t : Heap) : Type 0 where
  pub pmm : t.pmm ≡ h.pmm
  pub cache : t.caches c ≡ record (h.caches c) { slabs = s }
  pub others : (x : ℕ) → x ≢ c → t.caches x ≡ h.caches x

-- No slab serves the call: it halts under SLAB_PANIC, and otherwise returns `v` and leaves all slabs and
-- objects.
abbrev pub Unserved : {A : Type 0} → Heap → ℕ → Flags → A → Outcome A → Type 0
Unserved h c flags v r =
    ((flags.panic ≡ true) × (r ≡ halted))
    ⊎ ((flags.panic ≡ false)
        × ((t : Heap) × (r ≡ done v t)
            × Moved c 0 h t
            × (t.slabs ≡ h.slabs)
            × (t.bufctls ≡ h.bufctls)))

-- The head of the free list of slab `s` leaves it, and the slab has one object less.
pub record Took (c s : ℕ) (h t : Heap) : Type 0 where
  pub moved : Moved c s h t
  pub slab : t.slabs s ≡ record (h.slabs s) {
    freelist_head = (h.bufctls (h.slabs s).freelist_head).next;
    bufctl_count = ((h.slabs s).bufctl_count + 2 ^ 64 - 1) % 2 ^ 64;
  }
  pub other_slabs : (x : ℕ) → x ≢ s → t.slabs x ≡ h.slabs x
  pub objects : t.bufctls ≡ h.bufctls

-- The object `p` stands in front of the free list of slab `s`, which has one object more.
pub record Gave (c s p : ℕ) (h t : Heap) : Type 0 where
  pub moved : Moved c s h t
  pub slab : t.slabs s ≡ record (h.slabs s) {
    freelist_head = p;
    bufctl_count = ((h.slabs s).bufctl_count + 1) % 2 ^ 64;
  }
  pub other_slabs : (x : ℕ) → x ≢ s → t.slabs x ≡ h.slabs x
  pub object : t.bufctls p ≡ record {
    next = (h.slabs s).freelist_head;
    index = (p + 2 ^ 64 - (h.slabs s).bufctl_addr) % 2 ^ 64 / (h.caches c).slab_size % 2 ^ 16;
  }
  pub other_objects : (x : ℕ) → x ≢ p → t.bufctls x ≡ h.bufctls x

pub move_to-Moved : (h : Heap) (c s : ℕ) → Moved c s h (move_to h c s)
unfolding move_to
move_to-Moved h c s = record { pmm = refl; cache = ground arith; others = λ x ne. ground arith }

pub take_head-Took : (h : Heap) (c s : ℕ) → Took c s h (take_head (move_to h c s) s)
unfolding move_to take_head
take_head-Took h c s = record {
  moved = record { pmm = refl; cache = ground arith; others = λ x ne. ground arith };
  slab = ground arith;
  other_slabs = λ x ne. ground arith;
  objects = refl;
}

pub push_bufctl-Gave : (h : Heap) (c s p : ℕ) → Gave c s p h (push_bufctl (move_to h c s) c s p)
unfolding move_to push_bufctl
push_bufctl-Gave h c s p =
    let here : (c == c) ≡ true = ground arith in
    record {
      moved = record { pmm = refl; cache = ground arith; others = λ x ne. ground arith };
      slab = ground arith;
      other_slabs = λ x ne. ground arith;
      object = ground arith;
      other_objects = λ x ne. ground arith;
    }

first_passing-same :
    (f g : Slab → Bool) (h : Heap) (xs : List ℕ)
    → ((s : Slab) → f s ≡ g s)
    → first_passing f h xs ≡ first_passing g h xs
first_passing-same f g h [] same = refl
first_passing-same f g h (x ∷ xs) same =
    rw (same (h.slabs x), first_passing-same f g h xs same) refl

unserved :
    {A : Type 0} (h : Heap) (c : ℕ) (flags : Flags) (v : A)
    → Unserved h c flags v (if flags.panic then halted else done v (move_to h c 0))
unfolding move_to
unserved h c flags v = elim (Bool-cases flags.panic) [
  | inl panic ↦ inl (panic, rw panic refl)
  | inr quiet ↦ inr (quiet, (move_to h c 0, rw quiet refl, move_to-Moved h c 0, refl, refl))
]

module _ (fuel : ℕ) (h : Heap) (c : ℕ) (flags : Flags) (xs : List ℕ) (pos : 0 < c)
    (chain : SlabChain h (h.caches c).slabs_head xs) (enough : length xs < fuel) where
  -- A call of slab_cache_alloc without SLAB_AUTO_GROW for a cache other than null, whose slabs are
  -- `xs`, with more fuel than slabs: if no slab has a free object, it halts under SLAB_PANIC and
  -- returns null otherwise; else it returns the head of the free list of the first slab that has one.
  -- The next object becomes the head, the count is one less (modulo 2 ^ 64), and nothing but
  -- that slab and the cache's current slab changes.
  pub slab_cache_alloc-Took :
      (depth : ℕ)
      → flags.auto_grow ≡ false
      → let s = first_passing (λ x. ltb 0 x.freelist_head) h xs in
        let r = slab_cache_alloc (suc depth) fuel h c flags in
        ((s ≡ 0) × Unserved h c flags 0 r)
        ⊎ ((0 < s) × ((t : Heap) × (r ≡ done (h.slabs s).freelist_head t) × Took c s h t))
  slab_cache_alloc-Took depth no_grow =
      let same =
        first_passing-same has_free (λ x. ltb 0 x.freelist_head) h xs (λ x. ground arith) in
      let s = first_passing (λ x. ltb 0 x.freelist_head) h xs in
      rw (slab_cache_alloc-first_passing depth fuel h c flags xs pos no_grow chain enough, same)
        (elim (Bool-cases (s == 0)) [
          | inl none_free ↦ rw none_free (inl (ground arith, unserved {A = ℕ} h c flags 0))
          | inr found ↦ rw found (inr (ground arith, (_, refl, take_head-Took h c s)))
        ])

  -- A call of slab_cache_free for a cache other than null, whose slabs are `xs`, with more fuel than
  -- slabs: if no slab has fewer objects than the cache's maximum, it halts under SLAB_PANIC and
  -- drops the object otherwise; else the object stands in front of the free list of the first slab
  -- that has fewer, whichever slab it came from, with its index in that slab; the count is one more
  -- (modulo 2 ^ 64), and nothing but that slab, the object and the cache's current slab changes.
  pub slab_cache_free-Gave :
      (p : ℕ)
      → let s = first_passing (λ x. ltb x.bufctl_count (h.caches c).bufctl_count_max) h xs in
        let r = slab_cache_free fuel h c p flags in
        ((s ≡ 0) × Unserved h c flags tt r)
        ⊎ ((0 < s) × ((t : Heap) × (r ≡ done tt t) × Gave c s p h t))
  slab_cache_free-Gave p =
      let s = first_passing (λ x. ltb x.bufctl_count (h.caches c).bufctl_count_max) h xs in
      rw (slab_cache_free-first_passing fuel h c p flags xs pos chain enough)
        (elim (Bool-cases (s == 0)) [
          | inl none_free ↦ rw none_free (inl (ground arith, unserved {A = Unit {0}} h c flags tt))
          | inr found ↦ rw found (inr (ground arith, (_, refl, push_bufctl-Gave h c s p)))
        ])
