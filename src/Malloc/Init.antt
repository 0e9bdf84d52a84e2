-- ===== src/Malloc/Init.antt =====
-- malloc_heap_init of src/kernel/libk/malloc/malloc.c: the six caches of the heap.
use apopt_os.Base.{
  subst, ℕ, zero, suc, ◌+◌, ◌*◌, ◌<◌, ◌≤◌, ◌≡◌, ◌∙◌, ap, true, refl, some, List, [], ◌∷◌, length,
  get_or, arith,
}
use apopt_os.Pmm.Supply.{free_pages, IsSound}
use apopt_os.Slab.Heap.{Cache, Heap, Outcome, done, halted, out_of_fuel, put}
use apopt_os.Slab.Ops.{is_power_of_two}
use apopt_os.Slab.Life.{slab_cache_create}
use apopt_os.Slab.Create.{accepts}
use apopt_os.Slab.Supply.{InUse, Made, slab_cache_create-Made}
use apopt_os.Malloc.Sizes.{slab_cache_index_to_size}
use apopt_os.Malloc.Ops.{
  State, Result, returns, panics, diverges, heap_flags, create_caches, malloc_heap_init,
}

-- The cache at an index is there, and its objects have the size.
pub record Serves (t : State) (i size : ℕ) : Type 0 where
  pub some_cache : 0 < t.slab_caches i
  pub object_size : (t.heap.caches (t.slab_caches i)).slab_size ≡ size

abbrev AllAccepted : List ℕ → Type 0
AllAccepted [] = Unit {0}
AllAccepted (size ∷ sizes) = (accepts size ≡ true) × AllAccepted sizes

-- The caches of the sizes, from index `i` on.
record Filled (s : State) (i : ℕ) (sizes : List ℕ) (t : State) : Type 0 where
  sound : IsSound t.heap.pmm
  less : free_pages t.heap.pmm + 2 * length sizes ≡ free_pages s.heap.pmm
  serves : (k : ℕ) → k < length sizes → Serves t (i + k) (get_or sizes k 0)
  before : (j : ℕ) → j < i → t.slab_caches j ≡ s.slab_caches j
  caches : (x : ℕ) → InUse s.heap.pmm x → t.heap.caches x ≡ s.heap.caches x

-- one cache in front of the others
module _ (s t : State) (i size c : ℕ) (sizes : List ℕ) where
  served :
      {s' : State}
      → Made s.heap size c s'.heap
      → s'.slab_caches ≡ put s.slab_caches i c
      → Filled s' (i + 1) sizes t
      → (k : ℕ) → k < suc (length sizes)
      → Serves t (i + k) (get_or (size ∷ sizes) k 0)
  served made stored rest zero h =
      let here : t.slab_caches (i + 0) ≡ c =
        ap t.slab_caches (omega arith)
        ∙ rest.before i (omega arith)
        ∙ ap (λ f. f i) stored
        ∙ ground arith in
      record {
        some_cache = rw here made.some_cache;
        object_size =
            rw here
              (ap (λ (r : Cache). r.slab_size) (rest.caches c made.now_used) ∙ made.object_size);
      }
  served made stored rest (suc k) h =
      let e : i + 1 + k ≡ i + suc k = omega arith in
      subst (λ j. Serves t j (get_or sizes k 0)) e (rest.serves k (omega arith))

  Filled-suc :
      {s' : State}
      → Made s.heap size c s'.heap
      → s'.slab_caches ≡ put s.slab_caches i c
      → Filled s' (i + 1) sizes t
      → Filled s i (size ∷ sizes) t
  Filled-suc made stored rest = record {
    sound = rest.sound;
    less = omega (arith, rest.less, made.less);
    serves = served made stored rest;
    before = λ j lt.
        let other : put s.slab_caches i c j ≡ s.slab_caches j = ground (arith, lt) in
        rest.before j (omega arith) ∙ ap (λ f. f j) stored ∙ other;
    caches = λ x used. rest.caches x (made.still_used x used) ∙ made.caches x used;
  }

create_caches-done :
    (s : State) (i size : ℕ) (sizes : List ℕ) {c : ℕ} {h : Heap}
    → slab_cache_create s.heap size heap_flags ≡ done c h
    → create_caches s i (size ∷ sizes)
      ≡ create_caches (record s { heap = h; slab_caches = put s.slab_caches i c }) (i + 1) sizes
unfolding create_caches
create_caches-done s i size sizes made =
    let next : Outcome ℕ → Result = λ r. elim r [
      | done c h ↦
          create_caches (record s { heap = h; slab_caches = put s.slab_caches i c }) (i + 1) sizes
      | halted ↦ panics
      | out_of_fuel ↦ diverges
    ] in
    ap next made

create_caches-Filled :
    (sizes : List ℕ) (s : State) (i : ℕ)
    → AllAccepted sizes
    → IsSound s.heap.pmm
    → 2 * length sizes ≤ free_pages s.heap.pmm
    → (t : State) × (create_caches s i sizes ≡ returns 0 t) × Filled s i sizes t
unfolding create_caches
create_caches-Filled [] s i ok sound enough = (
  s,
  refl,
  record {
    sound = sound;
    less = omega arith;
    serves = λ k lt. absurd (omega arith);
    before = λ j lt. refl;
    caches = λ x used. refl;
  },
)
create_caches-Filled (size ∷ sizes) s i (ok, oks) sound enough =
    let (c, h, made, is_made) =
      slab_cache_create-Made s.heap size heap_flags ok sound (omega arith) in
    let s' = record s { heap = h; slab_caches = put s.slab_caches i c } in
    let (t, returned, filled) =
      create_caches-Filled sizes s' (i + 1) oks is_made.sound (omega (arith, is_made.less)) in
    (
      t,
      create_caches-done s i size sizes made ∙ returned,
      Filled-suc s t i size c sizes is_made refl filled,
    )

abbrev heap_sizes : List ℕ
heap_sizes = 16 ∷ 32 ∷ 64 ∷ 128 ∷ 256 ∷ 512 ∷ []

index-size :
    (i size : ℕ) → slab_cache_index_to_size i ≡ some size → (i < 6) × (get_or heap_sizes i 0 ≡ size)
unfolding slab_cache_index_to_size
index-size zero size named = (omega arith, ground (arith, named))
index-size (suc zero) size named = (omega arith, ground (arith, named))
index-size (suc (suc zero)) size named = (omega arith, ground (arith, named))
index-size (suc (suc (suc zero))) size named = (omega arith, ground (arith, named))
index-size (suc (suc (suc (suc zero)))) size named = (omega arith, ground (arith, named))
index-size (suc (suc (suc (suc (suc zero))))) size named = (omega arith, ground (arith, named))
index-size (suc (suc (suc (suc (suc (suc i)))))) size named = absurd (ground (arith, named))

heap_sizes-accepted : AllAccepted heap_sizes
unfolding is_power_of_two
heap_sizes-accepted = (refl, (refl, (refl, (refl, (refl, (refl, tt))))))

-- On a sound page frame allocator with at least twelve free pages, malloc_heap_init returns: it takes
-- twelve pages, and for every index for which slab_cache_index_to_size gives a size, the array
-- slab_caches has a cache that is not null and whose objects have that size.
pub malloc_heap_init-Serves :
    (s : State)
    → IsSound s.heap.pmm
    → 12 ≤ free_pages s.heap.pmm
    → (t : State) × (malloc_heap_init s ≡ returns 0 t)
      × (IsSound t.heap.pmm
          × (free_pages t.heap.pmm + 12 ≡ free_pages s.heap.pmm)
          × ((i size : ℕ) → slab_cache_index_to_size i ≡ some size → Serves t i size))
unfolding malloc_heap_init
malloc_heap_init-Serves s sound enough =
    let (t, returned, filled) =
      create_caches-Filled heap_sizes s 0 heap_sizes-accepted sound enough in
    (
      t,
      returned,
      (
        filled.sound,
        filled.less,
        λ i size named.
            let (below, is_size) = index-size i size named in
            subst (Serves t i) is_size (
              subst (λ j. Serves t j (get_or heap_sizes i 0)) (omega arith)
                (filled.serves i below)),
      ),
    )
