-- ===== src/Malloc/Blocks.antt =====
-- malloc and free together: addresses, the cache of a block, reuse.
use native.Mathlib.Nat.{pow-le-pow_right}
use apopt_os.Base.{
  ltb, ◌⊎◌, ◌-◌, Bool-cases, inl, inr, ℕ, zero, suc, ◌+◌, ◌%◌, ◌^◌, ◌<◌, ◌≤◌, ◌≡◌, ◌≢◌, ◌∙◌, true,
  false, some, refl, ap, u16, u64, leb, ◌==◌, page_size, arith,
}
use apopt_os.Slab.Heap.{Bufctl, Slab, Cache, Heap, Outcome, done, halted, out_of_fuel, put}
use apopt_os.Slab.Ops.{move_to, take_head, push_bufctl, slab_cache_alloc, slab_cache_free}
use apopt_os.Slab.Use.{has_room, alloc_from_head, free_to_head}
use apopt_os.Slab.Effect.{Took, Gave, take_head-Took, push_bufctl-Gave}
use apopt_os.Malloc.Sizes.{round_alloc_size, size_to_slab_cache_index}
use apopt_os.Malloc.Ops.{
  State, Result, returns, panics, diverges, slab_panic, to_user, to_block, finish, malloc, free,
}
use apopt_os.Malloc.Rounding.{
  class_size, round_alloc_size_small, index-size_iff, slab_cache_index_to_size-class,
}

-- The address arithmetic of free undoes that of malloc for every 64-bit address, with its wraps.
pub to_block-to_user : (p : ℕ) → p < 2 ^ 64 → to_block (to_user p) ≡ p
unfolding to_block to_user
to_block-to_user p h = omega arith

-- What free makes of the outcome of slab_cache_free.
abbrev pub freed : State → Outcome (Unit {0}) → Result
freed s o = elim o [
  | done _ h ↦ returns 0 (record s { heap = h })
  | halted ↦ panics
  | out_of_fuel ↦ diverges
]

class_index : (i : ℕ) → i < 6 → size_to_slab_cache_index (class_size i) ≡ some i
class_index i h = (index-size_iff i (class_size i)).0 (slab_cache_index_to_size-class i h)

class_le : (i : ℕ) → i < 6 → leb (class_size i) 512 ≡ true
class_le zero h = refl
class_le (suc zero) h = refl
class_le (suc (suc zero)) h = refl
class_le (suc (suc (suc zero))) h = refl
class_le (suc (suc (suc (suc zero)))) h = refl
class_le (suc (suc (suc (suc (suc zero))))) h = refl
class_le (suc (suc (suc (suc (suc (suc i)))))) h = absurd (omega arith)

-- malloc of a size whose rounding is that of cache `i`.
malloc_class :
    (fuel : ℕ) (s : State) (size i p : ℕ) {h : Heap}
    → i < 6
    → round_alloc_size (u64 (size + 2)) ≡ class_size i
    → slab_cache_alloc 1 fuel s.heap (s.slab_caches i) slab_panic ≡ done p h
    → malloc fuel s size ≡ finish s h p i
unfolding malloc
malloc_class fuel s size i p lt e taken = rw (e, class_le i lt, class_index i lt, taken)

finish_lem :
    (s : State) (h : Heap) (p i : ℕ)
    → 0 < p
    → finish s h p i
      ≡ returns (to_user p) (record s { heap = h; metadata = put s.metadata p (u16 i) })
unfolding finish
finish_lem s h p i pos = let ne : (p == 0) ≡ false = ground arith in rw ne

-- free of an object that is not page-aligned goes to the cache that its metadata names.
free_object :
    (fuel : ℕ) (s : State) (p : ℕ)
    → p < 2 ^ 64
    → to_user p ≢ 0
    → p % page_size ≢ 0
    → free fuel s (to_user p)
      ≡ freed s (slab_cache_free fuel s.heap (s.slab_caches (s.metadata p)) p slab_panic)
unfolding free
free_object fuel s p small not_null unaligned =
    let nu : (to_user p == 0) ≡ false = ground arith in
    let na : (p % 4096 == 0) ≡ false = ground arith in rw (to_block-to_user p small, nu, na)

class_size-le : (i : ℕ) → i < 6 → class_size i ≤ 512
class_size-le i lt = ground (arith, class_le i lt)

class_size-below : (i j : ℕ) → i < 6 → j < i → class_size j ≤ class_size (i - 1)
class_size-below i j lt below = pow-le-pow_right (omega arith) (omega arith)

same_class :
    (i j n : ℕ)
    → i < 6
    → j < 6
    → n ≤ class_size i
    → n ≤ class_size j
    → (i ≡ 0) ⊎ (class_size (i - 1) < n)
    → (j ≡ 0) ⊎ (class_size (j - 1) < n)
    → j ≡ i
same_class i j n lti ltj fi fj li lj = elim (Bool-cases (j == i)) [
  | inl same ↦ ground (arith, same)
  | inr other ↦ elim (Bool-cases (ltb j i)) [
    | inl less ↦
        let b = class_size-below i j lti (ground (arith, less)) in
        elim li [
          | inl none ↦ absurd (ground (arith, less))
          | inr above ↦ absurd (omega (arith, b, above, fj))
        ]
    | inr more ↦
        let b = class_size-below j i ltj (ground (arith, more, other)) in
        elim lj [
          | inl none ↦ absurd (ground (arith, more, other))
          | inr above ↦ absurd (omega (arith, b, above, fi))
        ]
  ]
]

-- A slab that an object was taken from and given back to.
slabs_back :
    (h t u : Heap) (c s p : ℕ)
    → 0 < (h.slabs s).bufctl_count
    → (h.slabs s).bufctl_count < 2 ^ 64
    → Took c s h t
    → Gave c s (h.slabs s).freelist_head t u
    → (x : ℕ) → u.slabs x ≡ h.slabs x
slabs_back h t u c s p some_object small took gave x = elim (Bool-cases (x == s)) [
  | inl same ↦
      let e : x ≡ s = ground (arith, same) in
      let count : (((h.slabs s).bufctl_count + 2 ^ 64 - 1) % 2 ^ 64 + 1) % 2 ^ 64
          ≡ (h.slabs s).bufctl_count =
        omega arith in
      rw e (
        gave.slab
        ∙ ap
            (λ (k : Slab). record k {
              freelist_head = (h.slabs s).freelist_head;
              bufctl_count = (k.bufctl_count + 1) % 2 ^ 64;
            })
            took.slab
        ∙ ap (λ n. record (h.slabs s) { bufctl_count = n }) count)
  | inr other ↦
      gave.other_slabs x (ground (arith, other)) ∙ took.other_slabs x (ground (arith, other))
]

-- The cache size that rounding gives is the only one that holds the size and is least.
round-class :
    (size i : ℕ)
    → i < 6
    → size + 2 ≤ class_size i
    → (i ≡ 0) ⊎ (class_size (i - 1) < size + 2)
    → round_alloc_size (u64 (size + 2)) ≡ class_size i
round-class size i lt fits least =
    let le = class_size-le i lt in
    let (j, ltj, ej, fits', least') = round_alloc_size_small (size + 2) (omega (arith, fits, le)) in
    let eu : u64 (size + 2) ≡ size + 2 = omega (arith, fits, le) in
    rw eu (ej ∙ ap class_size (same_class i j (size + 2) lt ltj fits fits' least least'))

-- A block of a size of up to 510 bytes, where the cache of the least of the six sizes that holds it
-- with its two bytes of metadata has objects of that size, and its first slab a free object, which is
-- not page-aligned and whose heap address is not null: malloc returns the heap address of that object,
-- which is large enough for the block; free of that address returns, and then the slab is as it was,
-- so are the next object on its list, the other slabs and objects, and the page frame allocator. The
-- slab has at least one object, and at most as many as the cache allows.
pub free-malloc :
    (fuel : ℕ) (s : State) (size i : ℕ)
    → i < 6
    → size + 2 ≤ class_size i
    → (i ≡ 0) ⊎ (class_size (i - 1) < size + 2)
    → let c = s.slab_caches i in
      let slab = (s.heap.caches c).slabs_head in
      let p = (s.heap.slabs slab).freelist_head in
      0 < c
      → (s.heap.caches c).slab_size ≡ class_size i
      → 0 < slab
      → 0 < p
      → p < 2 ^ 64
      → to_user p ≢ 0
      → p % page_size ≢ 0
      → 0 < (s.heap.slabs slab).bufctl_count
      → (s.heap.slabs slab).bufctl_count ≤ (s.heap.caches c).bufctl_count_max
      → (s.heap.caches c).bufctl_count_max < 2 ^ 64
      → (t u : State) × (malloc (suc fuel) s size ≡ returns (to_user p) t)
        × ((free (suc fuel) t (to_user p) ≡ returns 0 u)
            × (size + 2 ≤ (s.heap.caches c).slab_size)
            × ((t.heap.slabs slab).freelist_head ≡ (s.heap.bufctls p).next)
            × ((x : ℕ) → u.heap.slabs x ≡ s.heap.slabs x)
            × ((u.heap.bufctls p).next ≡ (s.heap.bufctls p).next)
            × ((x : ℕ) → x ≢ p → u.heap.bufctls x ≡ s.heap.bufctls x)
            × (u.heap.pmm ≡ s.heap.pmm))
free-malloc fuel s size i lt fits least pc object_size ps pp small not_null unaligned some_object
      at_most bound =
    let h = s.heap in
    let c = s.slab_caches i in
    let slab = (h.caches c).slabs_head in
    let p = (h.slabs slab).freelist_head in
    let taken = take_head (move_to h c slab) slab in
    let took = take_head-Took h c slab in
    let back = push_bufctl (move_to taken c slab) c slab p in
    let gave = push_bufctl-Gave taken c slab p in
    let t = record s { heap = taken; metadata = put s.metadata p (u16 i) } in
    let em : put s.metadata p (u16 i) p ≡ i = ground arith in
    let head : (taken.caches c).slabs_head ≡ slab =
      ap (λ (k : Cache). k.slabs_head) took.moved.cache in
    let max : (taken.caches c).bufctl_count_max ≡ (h.caches c).bufctl_count_max =
      ap (λ (k : Cache). k.bufctl_count_max) took.moved.cache in
    let count : (taken.slabs slab).bufctl_count
        ≡ ((h.slabs slab).bufctl_count + 2 ^ 64 - 1) % 2 ^ 64 =
      ap (λ (k : Slab). k.bufctl_count) took.slab in
    let room : has_room (taken.caches c) (taken.slabs slab) ≡ true = ground (arith, max, count) in
    let next : (taken.slabs slab).freelist_head ≡ (h.bufctls p).next =
      ap (λ (k : Slab). k.freelist_head) took.slab in
    (
      t,
      record t { heap = back },
      malloc_class (suc fuel) s size i p lt (round-class size i lt fits least)
            (alloc_from_head 0 fuel h c slab slab_panic pc refl ps pp)
          ∙ finish_lem s taken p i pp,
      (
        free_object (suc fuel) t p small not_null unaligned
            ∙ ap (λ k. freed t (slab_cache_free (suc fuel) taken (s.slab_caches k) p slab_panic)) em
            ∙ ap (freed t) (free_to_head fuel taken c slab p slab_panic pc head ps room),
        omega (arith, fits, object_size),
        next,
        slabs_back h taken back c slab p some_object (omega (arith, at_most, bound)) took gave,
        ap (λ (k : Bufctl). k.next) gave.object ∙ next,
        λ x ne. gave.other_objects x ne ∙ ap (λ f. f x) took.objects,
        gave.moved.pmm ∙ took.moved.pmm,
      ),
    )
