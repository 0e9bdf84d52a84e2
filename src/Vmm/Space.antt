-- ===== src/Vmm/Space.antt =====
-- The page tables of src/kernel/memory/virtual/vmm.c as an address space: what the memory management
-- unit finds for every virtual address.
use apopt_os.Base.{
  align_down, u64, ◌-◌, ℕ, zero, suc, ◌+◌, ◌-◌, ◌*◌, ◌/◌, ◌%◌, ◌^◌, ◌≡◌, Bool, true, ◌&&◌, Option,
  some, none, ltb, ◌==◌, if◌then◌else◌, page_size, arith,
}
use apopt_os.Vmm.Ops.{index_at}

abbrev pub AddressSpace : Type 0
AddressSpace = ℕ → Option ℕ

-- the page that an entry names
abbrev pub base : ℕ → ℕ
base entry = entry / page_size * page_size

-- The index in a table of level `k`, where the last table has level 1 and the root level 4.
abbrev pub level_index : ℕ → ℕ → ℕ
level_index virt k = index_at virt (3 + 9 * k)

-- The walk from the table of level `k` that `entry` names; it stops at an entry that is not present.
-- The view is that of pages of 4096 bytes: it reads neither the page-size bit nor the access rights of
-- the entries above the last.
unfoldable pub resolve : (ℕ → ℕ) → ℕ → ℕ → AddressSpace
resolve words zero entry virt = some entry
resolve words (suc k) entry virt =
    let e = words (base entry + 8 * level_index virt (suc k)) in
    let rest = resolve words k e virt in if e % 2 == 1 then rest else none

-- The last entry for an address, from the register `cr3` on, if all are present.
unfoldable pub translate : (ℕ → ℕ) → ℕ → AddressSpace
translate words cr3 virt = resolve words 4 cr3 virt

-- The number of the page of an address, of which the unit uses 48 bits.
abbrev pub page_of : ℕ → ℕ
page_of virt = virt / page_size % 2 ^ 36

-- the space with something else for one page
abbrev pub over_page : AddressSpace → ℕ → Option ℕ → AddressSpace
over_page s v entry virt = if page_of virt == page_of v then entry else s virt

abbrev pub with_page : AddressSpace → ℕ → ℕ → AddressSpace
with_page s v entry = over_page s v (some entry)

abbrev pub without_page : AddressSpace → ℕ → AddressSpace
without_page s v = over_page s v none

-- The `n` pages from that of `v` on, of which the page with number `d` gets `f d`.
abbrev pub over_pages : AddressSpace → ℕ → ℕ → (ℕ → Option ℕ) → AddressSpace
over_pages s v n f virt =
    let d = (page_of virt + 2 ^ 36 - page_of v) % 2 ^ 36 in if ltb d n then f d else s virt

abbrev pub with_pages : AddressSpace → ℕ → ℕ → (ℕ → ℕ) → AddressSpace
with_pages s v n f = over_pages s v n (λ d. some (f d))

abbrev pub without_pages : AddressSpace → ℕ → ℕ → AddressSpace
without_pages s v n = over_pages s v n (λ d. none)

-- The range from the page of `start` up to `end`, at the addresses that are `offset` further on: the
-- page whose own address is `phys` gets `f phys`. A page belongs to it if it starts before `end`.
abbrev pub over_range : AddressSpace → ℕ → ℕ → ℕ → (ℕ → Option ℕ) → AddressSpace
over_range s start end offset f virt =
    let phys =
      align_down start
      + page_size
        * ((page_of virt + 2 ^ 36 - page_of (u64 (align_down start + offset))) % 2 ^ 36) in
    if ltb phys end then f phys else s virt

-- two addresses with the same indices from level `k` down
abbrev pub same_from : ℕ → ℕ → ℕ → Bool
same_from zero v w = true
same_from (suc k) v w = level_index v (suc k) == level_index w (suc k) && same_from k v w

pub same_from-page_of : (v w : ℕ) → same_from 4 v w ≡ (page_of v == page_of w)
same_from-page_of v w = ground arith
