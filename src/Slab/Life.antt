-- ===== src/Slab/Life.antt =====
-- The functions of slab.c on whole caches: create, destroy, reap and dump.
use apopt_os.Base.{
  ℕ, zero, suc, ◌-◌, ◌/◌, Bool, true, false, ◌&&◌, leb, ◌==◌, if◌then◌else◌, page_size,
}
use apopt_os.Slab.Heap.{
  Bufctl, Flags, Heap, Outcome, done, halted, out_of_fuel, put_cache, put_slab, sizeof_bufctl,
  sizeof_cache, zero_cache, allocz_page, free_page,
}
use apopt_os.Slab.Ops.{is_power_of_two, slab_cache_grow, rewind, move_to}

unfoldable pub bufctl_count_max_for : ℕ → ℕ
bufctl_count_max_for slab_size = (page_size - sizeof_cache) / slab_size

-- The new cache at `c`, whose page was zeroed, before its first slab.
unfoldable pub init_cache : Heap → ℕ → ℕ → Heap
init_cache h c slab_size = put_cache h c (record (h.caches c) {
  slab_size = slab_size;
  bufctl_count_max = bufctl_count_max_for slab_size;
  slabs = 0;
})

unfoldable pub slab_cache_create : Heap → ℕ → Flags → Outcome ℕ
slab_cache_create h slab_size flags =
    if leb slab_size 512 && leb sizeof_bufctl slab_size && is_power_of_two slab_size
    then (let (c, h') = allocz_page h in
        if c == 0
        then if flags.panic then halted else done 0 h'
        else elim (slab_cache_grow (init_cache h' c slab_size) c 1 flags) [
          | done _ t ↦ done c t
          | halted ↦ halted
          | out_of_fuel ↦ out_of_fuel
        ])
    else halted

-- The slabs' pages are given back one by one, by the heads of their free lists; the walk stops with
-- the cache in place at a slab that is not entirely free.
unfoldable pub destroy_loop : ℕ → Heap → ℕ → Flags → Outcome (Unit {0})
destroy_loop zero h c flags = out_of_fuel
destroy_loop (suc fuel) h c flags =
    let s = (h.caches c).slabs in
    let rest =
      destroy_loop fuel (move_to (free_page h (h.slabs s).freelist_head) c (h.slabs s).next) c
        flags in
    if s == 0
    then done tt (free_page (put_cache h c zero_cache) c)
    else if (h.slabs s).bufctl_count == (h.caches c).bufctl_count_max
    then rest
    else if flags.panic
    then halted
    else done tt h

unfoldable pub slab_cache_destroy : ℕ → Heap → ℕ → Flags → Outcome (Unit {0})
slab_cache_destroy fuel h c flags =
    if c == 0
    then if flags.panic then halted else done tt h
    else destroy_loop fuel (rewind h c) c flags

-- Unlink the current slab, which follows `prev` or is the head, and give its page back.
unfoldable pub unlink_slab : Heap → ℕ → ℕ → Heap
unlink_slab h c prev =
    let s = (h.caches c).slabs in
    let h1 =
      if s == (h.caches c).slabs_head
      then put_cache h c (record (h.caches c) { slabs_head = (h.slabs s).next })
      else h in
    let h2 = put_slab h1 prev (record (h1.slabs prev) { next = (h1.slabs s).next }) in
    move_to (free_page h2 s) c (h2.slabs prev).next

unfoldable pub reap_loop : ℕ → Heap → ℕ → ℕ → Outcome (Unit {0})
reap_loop zero h c prev = out_of_fuel
reap_loop (suc fuel) h c prev =
    let s = (h.caches c).slabs in
    let reaped = reap_loop fuel (unlink_slab h c prev) c prev in
    let kept = reap_loop fuel (move_to h c (h.slabs s).next) c s in
    if s == 0
    then done tt h
    else if (h.slabs s).bufctl_count == (h.caches c).bufctl_count_max
    then reaped
    else kept

unfoldable pub slab_cache_reap : ℕ → Heap → ℕ → Flags → Outcome (Unit {0})
slab_cache_reap fuel h c flags =
    if c == 0
    then if flags.panic then halted else done tt h
    else reap_loop fuel (rewind h c) c (h.caches c).slabs_head

-- The inner loop of slab_cache_dump ends: a walk along the links reaches null.
unfoldable pub list_ends : (ℕ → Bufctl) → ℕ → ℕ → Bool
list_ends bufctls zero p = false
list_ends bufctls (suc fuel) p =
    let rest = list_ends bufctls fuel (bufctls p).next in if p == 0 then true else rest

-- What the dump prints is left out; it runs with `freelist` of each slab, which ends as null.
unfoldable pub dump_loop : ℕ → Heap → ℕ → Outcome (Unit {0})
dump_loop zero h c = out_of_fuel
dump_loop (suc fuel) h c =
    let s = (h.caches c).slabs in
    let rest =
      dump_loop fuel
        (move_to (put_slab h s (record (h.slabs s) { freelist = 0 })) c (h.slabs s).next) c in
    if s == 0
    then done tt h
    else if list_ends h.bufctls fuel (h.slabs s).freelist_head
    then rest
    else out_of_fuel

unfoldable pub slab_cache_dump : ℕ → Heap → ℕ → Flags → Outcome (Unit {0})
slab_cache_dump fuel h c flags =
    if (h.caches c).slabs_head == 0
    then if flags.panic then halted else done tt (rewind h c)
    else dump_loop fuel (rewind h c) c
