-- ===== src/Malloc/Ops.antt =====
-- malloc, free, realloc and malloc_heap_init.
use apopt_os.Base.{
  ℕ, ◌+◌, ◌-◌, ◌*◌, ◌/◌, ◌%◌, ◌^◌, true, false, not, Option, none, some, u16, u64, ltb, leb, ◌==◌,
  if◌then◌else◌, page_size, heap_start_addr, List, [], ◌∷◌,
}
use apopt_os.Pmm.{pmm_alloc, pmm_free}
use apopt_os.Str.{Memory, memcpy}
use apopt_os.Str.Laws.{within}
use apopt_os.Slab.Heap.{
  Flags, Heap, done, halted, out_of_fuel, put, zero_cache, zero_slab, zero_bufctl,
}
use apopt_os.Slab.Ops.{slab_cache_alloc, slab_cache_free}
use apopt_os.Slab.Life.{slab_cache_create}
use apopt_os.Malloc.Sizes.{round_alloc_size, size_to_slab_cache_index, slab_cache_index_to_size}

-- `slab_caches`, the `malloc_metadata_t` at each address, the bytes that callers keep at the heap
-- addresses that malloc returns, and the objects of the allocators below. The metadata of a block
-- lies over the bufctl of its object, which is not read while the block is in use and is written
-- whole when it is freed.
pub record State : Type 0 where
  pub heap : Heap
  pub slab_caches : ℕ → ℕ
  pub metadata : ℕ → ℕ
  pub bytes : Memory

abbrev pub sizeof_metadata : ℕ
sizeof_metadata = 2

-- What a call leads to, as in the slab allocator.
pub data Result : Type 0 where
  returns : ℕ → State → Result
  panics : Result
  diverges : Result

-- SLAB_PANIC
abbrev pub slab_panic : Flags
slab_panic = record { panic = true; auto_grow = false; no_align = false }

-- SLAB_PANIC | SLAB_AUTO_GROW | SLAB_NO_ALIGN
abbrev pub heap_flags : Flags
heap_flags = record { panic = true; auto_grow = true; no_align = true }

-- `pmm_allocz(page_count)` on the store of objects
unfoldable pub allocz_pages : Heap → ℕ → ℕ × Heap
allocz_pages h page_count =
    let (p, a) = pmm_alloc h.pmm page_count in
    let n = u64 (page_size * page_count) in
    (
      a,
      record h {
        pmm = p;
        caches = λ x. if within a n x then zero_cache else h.caches x;
        slabs = λ x. if within a n x then zero_slab else h.slabs x;
        bufctls = λ x. if within a n x then zero_bufctl else h.bufctls x;
      },
    )

-- The bytes and metadata of a range of pages after it was filled with zeros.
unfoldable pub clear_pages : State → ℕ → ℕ → State
clear_pages s a page_count =
    let n = u64 (page_size * page_count) in
    record s {
      metadata = λ x. if within a n x then 0 else s.metadata x;
      bytes = λ x. if within (u64 (a + heap_start_addr)) n x then 0 else s.bytes x;
    }

-- The block's address in the heap, from the address that an allocator returned, and back.
unfoldable pub to_user : ℕ → ℕ
to_user pointer = u64 (u64 (pointer + sizeof_metadata) + heap_start_addr)

unfoldable pub to_block : ℕ → ℕ
to_block pointer = u64 (u64 (pointer + 2 ^ 64 - heap_start_addr) + 2 ^ 64 - sizeof_metadata)

-- Store the metadata of a block that is not null, and return its address in the heap.
unfoldable pub finish : State → Heap → ℕ → ℕ → Result
finish s h pointer size =
    if pointer == 0
    then returns 0 (record s { heap = h })
    else returns (to_user pointer)
        (record s { heap = h; metadata = put s.metadata pointer (u16 size) })

-- `fuel` bounds the slabs of one walk. malloc passes SLAB_PANIC only, so no cache grows here.
unfoldable pub malloc : ℕ → State → ℕ → Result
malloc fuel s size =
    let new_size = round_alloc_size (u64 (size + sizeof_metadata)) in
    if leb new_size 512
    then elim (size_to_slab_cache_index new_size) [
      | none ↦ returns 0 s
      | some index ↦ elim (slab_cache_alloc 1 fuel s.heap (s.slab_caches index) slab_panic) [
        | done pointer h ↦ finish s h pointer index
        | halted ↦ panics
        | out_of_fuel ↦ diverges
      ]
    ]
    else (let (pointer, h) = allocz_pages s.heap (new_size / page_size) in
        finish (clear_pages s pointer (new_size / page_size)) h pointer (new_size / page_size))

-- By its address a block is an object of a slab, or starts a range of pages.
unfoldable pub free : ℕ → State → ℕ → Result
free fuel s pointer =
    let block = to_block pointer in
    if pointer == 0
    then returns 0 s
    else if not (block % 4096 == 0)
    then elim (slab_cache_free fuel s.heap (s.slab_caches (s.metadata block)) block slab_panic) [
      | done _ h ↦ returns 0 (record s { heap = h })
      | halted ↦ panics
      | out_of_fuel ↦ diverges
    ]
    else returns 0
        (record s { heap = record (s.heap) { pmm = pmm_free s.heap.pmm block (s.metadata block) } })

-- The size of an old block as realloc computes it.
unfoldable pub old_size_of : State → ℕ → Option ℕ
old_size_of s block =
    if not (block % 4096 == 0)
    then slab_cache_index_to_size (s.metadata block)
    else some (s.metadata block / page_size)

-- What realloc does after its call of malloc has returned.
unfoldable pub move_block : ℕ → State → ℕ → ℕ → ℕ → ℕ → Result
move_block fuel s new_pointer old_pointer old_size rounded_new_size =
    if new_pointer == 0
    then returns 0 s
    else (let copied = record s {
      bytes =
          memcpy s.bytes new_pointer old_pointer
            (if ltb rounded_new_size old_size then rounded_new_size else old_size);
    } in
        elim (free fuel copied old_pointer) [
          | returns _ t ↦ returns new_pointer t
          | panics ↦ panics
          | diverges ↦ diverges
        ])

unfoldable pub realloc : ℕ → State → ℕ → ℕ → Result
realloc fuel s old_pointer new_size =
    if old_pointer == 0
    then malloc fuel s new_size
    else if new_size == 0
    then free fuel s old_pointer
    else elim (old_size_of s (to_block old_pointer)) [
      | none ↦ returns 0 s
      | some old_size ↦
          if old_size == round_alloc_size new_size
          then returns old_pointer s
          else elim (malloc fuel s new_size) [
            | returns new_pointer t ↦
                move_block fuel t new_pointer old_pointer old_size (round_alloc_size new_size)
            | panics ↦ panics
            | diverges ↦ diverges
          ]
    ]

-- malloc_heap_init: the caches of the sizes from the list, from index `i` on.
unfoldable pub create_caches : State → ℕ → List ℕ → Result
create_caches s i [] = returns 0 s
create_caches s i (size ∷ sizes) = elim (slab_cache_create s.heap size heap_flags) [
  | done c h ↦
      create_caches (record s { heap = h; slab_caches = put s.slab_caches i c }) (i + 1) sizes
  | halted ↦ panics
  | out_of_fuel ↦ diverges
]

unfoldable pub malloc_heap_init : State → Result
malloc_heap_init s = create_caches s 0 (16 ∷ 32 ∷ 64 ∷ 128 ∷ 256 ∷ 512 ∷ [])
