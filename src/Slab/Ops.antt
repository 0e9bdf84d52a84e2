-- ===== src/Slab/Ops.antt =====
-- The functions of slab.c. A null cache pointer is tested first by each, as in the source.
use apopt_os.Base.{
  ℕ, zero, suc, ◌+◌, ◌-◌, ◌*◌, ◌/◌, ◌%◌, ◌^◌, Bool, not, ◌&&◌, Option, none, some, u16, u64, ltb,
  ◌==◌, if◌then◌else◌, page_size, bit_and,
}
use apopt_os.Slab.Heap.{
  Slab, Flags, Heap, Outcome, done, halted, out_of_fuel, put_cache, put_slab, put_bufctl,
  sizeof_slab, allocz_page,
}

-- `num > 0 && (num & (num - 1)) == 0`
unfoldable pub is_power_of_two : ℕ → Bool
is_power_of_two num = ltb 0 num && bit_and num (num - 1) == 0

unfoldable pub slab_create_bufctl_buffer : Heap → ℕ × Heap
slab_create_bufctl_buffer h =
    let (b, h') = allocz_page h in
    if b == 0 then (0, h') else (b, put_bufctl h' b (record (h'.bufctls b) { next = 0 }))

-- the address of the slab structure, at the end of the page
unfoldable pub slab_at : ℕ → ℕ
slab_at bufctl = u64 (bufctl + page_size + 2 ^ 64 - sizeof_slab)

-- The new slab becomes the only one, or the successor of the current one.
unfoldable pub link_slab : Heap → ℕ → ℕ → Heap
link_slab h c slab =
    let cur = (h.caches c).slabs in
    if cur == 0
    then put_cache h c (record (h.caches c) { slabs_head = slab; slabs = slab })
    else (let h' = put_slab h cur (record (h.slabs cur) { next = slab }) in
        put_cache h' c (record (h.caches c) { slabs = (h'.slabs cur).next }))

unfoldable pub slab_create_slab : Heap → ℕ → ℕ → Heap
slab_create_slab h c bufctl =
    let slab = slab_at bufctl in
    link_slab
      (put_slab h slab (record {
        next = 0;
        bufctl_count = (h.caches c).bufctl_count_max;
        bufctl_addr = bufctl;
        freelist_head = 0;
        freelist = 0;
      }))
      c slab

-- the address of the object with this index
unfoldable pub slot : ℕ → ℕ → ℕ → ℕ
slot bufctl slab_size index = u64 (bufctl + slab_size * index)

-- A page-aligned object is not used: both counts drop.
unfoldable pub skip_slot : Heap → ℕ → Heap
skip_slot h c =
    let s = (h.caches c).slabs in
    put_cache
      (put_slab h s
        (record (h.slabs s) { bufctl_count = u64 ((h.slabs s).bufctl_count + 2 ^ 64 - 1) }))
      c
      (record (h.caches c) { bufctl_count_max = u64 ((h.caches c).bufctl_count_max + 2 ^ 64 - 1) })

-- An object goes to the end of the current slab's free list.
unfoldable pub append_slot : Heap → ℕ → ℕ → Heap
append_slot h c new =
    let s = (h.caches c).slabs in
    let last = (h.slabs s).freelist in
    if last == 0
    then put_slab h s (record (h.slabs s) { freelist_head = new; freelist = new })
    else (let h' = put_bufctl h last (record (h.bufctls last) { next = new }) in
        put_slab h' s (record (h.slabs s) { freelist = (h'.bufctls last).next }))

unfoldable pub slab_init_bufctls : Heap → ℕ → ℕ → ℕ → Flags → Heap
slab_init_bufctls h c bufctl index flags =
    let new = slot bufctl (h.caches c).slab_size index in
    let h' = put_bufctl h new (record (h.bufctls new) { index = u16 index }) in
    if flags.no_align && new % 4096 == 0 then skip_slot h' c else append_slot h' c new

-- `for (j = j; n rounds; j++) slab_init_bufctls(cache, bufctl, j, flags)`
unfoldable pub init_bufctls : Heap → ℕ → ℕ → Flags → ℕ → ℕ → Heap
init_bufctls h c bufctl flags zero j = h
init_bufctls h c bufctl flags (suc n) j =
    init_bufctls (slab_init_bufctls h c bufctl j flags) c bufctl flags n (j + 1)

-- One more slab on the page `bufctl`.
unfoldable pub add_slab : Heap → ℕ → ℕ → Flags → Heap
add_slab h c bufctl flags =
    let h' = slab_create_slab h c bufctl in
    init_bufctls h' c bufctl flags (h'.caches c).bufctl_count_max 0

-- The loop of slab_cache_grow, with the slabs still to add.
unfoldable pub grow_loop : Heap → ℕ → Flags → ℕ → Outcome (Unit {0})
grow_loop h c flags zero = done tt h
grow_loop h c flags (suc n) =
    let page = slab_create_bufctl_buffer h in
    let rest = grow_loop (add_slab page.1 c page.0 flags) c flags n in
    if page.0 == 0 then if flags.panic then halted else done tt page.1 else rest

-- Every operation starts its walk at the first slab.
unfoldable pub rewind : Heap → ℕ → Heap
rewind h c = put_cache h c (record (h.caches c) { slabs = (h.caches c).slabs_head })

unfoldable pub slab_cache_grow : Heap → ℕ → ℕ → Flags → Outcome (Unit {0})
slab_cache_grow h c count flags =
    if c == 0
    then if flags.panic then halted else done tt h
    else grow_loop (rewind h c) c flags count

-- The walk of slab_cache_alloc and slab_cache_free: the first slab that passes the test, or null.
unfoldable pub first_slab : (Slab → Bool) → Heap → ℕ → ℕ → Option ℕ
first_slab test h zero s = none
first_slab test h (suc fuel) s =
    let rest = first_slab test h fuel (h.slabs s).next in
    if s == 0 then some 0 else if test (h.slabs s) then some s else rest

unfoldable pub move_to : Heap → ℕ → ℕ → Heap
move_to h c s = put_cache h c (record (h.caches c) { slabs = s })

-- Take the head of a slab's free list.
unfoldable pub take_head : Heap → ℕ → Heap
take_head h s = put_slab h s (record (h.slabs s) {
  freelist_head = (h.bufctls (h.slabs s).freelist_head).next;
  bufctl_count = u64 ((h.slabs s).bufctl_count + 2 ^ 64 - 1);
})

abbrev pub has_free : Slab → Bool
has_free s = not (s.freelist_head == 0)

-- `depth` bounds the calls of itself after a growth, `fuel` the slabs of one walk.
unfoldable pub slab_cache_alloc : ℕ → ℕ → Heap → ℕ → Flags → Outcome ℕ
slab_cache_alloc zero fuel h c flags = out_of_fuel
slab_cache_alloc (suc depth) fuel h c flags =
    let again = λ (t : Heap). slab_cache_alloc depth fuel t c flags in
    if c == 0
    then if flags.panic then halted else done 0 h
    else elim (first_slab has_free h fuel (h.caches c).slabs_head) [
      | none ↦ out_of_fuel
      | some s ↦
          if s == 0
          then if flags.auto_grow
            then elim (slab_cache_grow (move_to h c 0) c 1 flags) [
              | done _ t ↦ again t
              | halted ↦ halted
              | out_of_fuel ↦ out_of_fuel
            ]
            else if flags.panic
            then halted
            else done 0 (move_to h c 0)
          else done (h.slabs s).freelist_head (take_head (move_to h c s) s)
    ]

-- Put an object in front of a slab's free list.
unfoldable pub push_bufctl : Heap → ℕ → ℕ → ℕ → Heap
push_bufctl h c s pointer =
    let h' = put_bufctl h pointer (record {
      next = (h.slabs s).freelist_head;
      index = u16 (u64 (pointer + 2 ^ 64 - (h.slabs s).bufctl_addr) / (h.caches c).slab_size);
    }) in
    put_slab h' s (record (h.slabs s) {
      freelist_head = pointer;
      bufctl_count = u64 ((h.slabs s).bufctl_count + 1);
    })

unfoldable pub slab_cache_free : ℕ → Heap → ℕ → ℕ → Flags → Outcome (Unit {0})
slab_cache_free fuel h c pointer flags =
    if c == 0
    then if flags.panic then halted else done tt h
    else elim (first_slab (λ s. ltb s.bufctl_count (h.caches c).bufctl_count_max) h fuel
        (h.caches c).slabs_head) [
          | none ↦ out_of_fuel
          | some s ↦
              if s == 0
              then if flags.panic then halted else done tt (move_to h c 0)
              else done tt (push_bufctl (move_to h c s) c s pointer)
        ]
