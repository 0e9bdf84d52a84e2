-- ===== src/Vmm/Supply.antt =====
-- The pages that the functions of src/kernel/memory/virtual/vmm.c take from the page frame allocator.
use apopt_os.Base.{ℕ, zero, suc, ◌+◌, ◌*◌, ◌%◌, ◌==◌, page_size, u64, arith, Bool-cases, inl, inr}
use apopt_os.Pmm.Supply.{IsSound, Spent, Spent-none, Spent-trans, Spent-more, pmm_alloc-Spent}
use apopt_os.Vmm.Ops.{
  Vm, PatCache, cell, allocz_table, vmm_get_or_create_pml, vmm_set_pt_value, set_entry,
  vmm_flush_tlb, vmm_map_page, map_from, vmm_map_range, rounds,
}

pub vmm_get_or_create_pml-Spent :
    (m : Vm) (pml i flags : ℕ)
    → IsSound m.pmm
    → Spent m.pmm (vmm_get_or_create_pml m pml i flags).1.pmm 1
unfolding vmm_get_or_create_pml allocz_table
vmm_get_or_create_pml-Spent m pml i flags s = elim (Bool-cases (m.words (cell pml i) % 2 == 0)) [
  | inl new ↦ rw new (pmm_alloc-Spent m.pmm s)
  | inr there ↦ rw there (Spent-more 1 (omega arith) (Spent-none s))
]

pub vmm_set_pt_value-Spent :
    (m : Vm) (page_table virt value flags : ℕ) (c : PatCache)
    → IsSound m.pmm
    → Spent m.pmm (vmm_set_pt_value m page_table virt value flags c).pmm 3
unfolding vmm_set_pt_value vmm_flush_tlb set_entry
vmm_set_pt_value-Spent m page_table virt value flags c s =
    let s3 = vmm_get_or_create_pml-Spent m _ _ _ s in
    let s2 = vmm_get_or_create_pml-Spent _ _ _ _ s3.sound in
    let s1 = vmm_get_or_create_pml-Spent _ _ _ _ s2.sound in Spent-trans (Spent-trans s3 s2) s1

pub vmm_map_page-Spent :
    (m : Vm) (page_table phys virt flags : ℕ) (c : PatCache)
    → IsSound m.pmm
    → Spent m.pmm (vmm_map_page m page_table phys virt flags c).pmm 3
unfolding vmm_map_page
vmm_map_page-Spent m page_table phys virt flags c s = vmm_set_pt_value-Spent m _ _ _ _ _ s

pub map_from-Spent :
    (page_table n i offset flags : ℕ) (c : PatCache) (m : Vm)
    → IsSound m.pmm
    → Spent m.pmm (map_from m page_table n i offset flags c).pmm (3 * n)
unfolding map_from
map_from-Spent page_table zero i offset flags c m s = Spent-none s
map_from-Spent page_table (suc n) i offset flags c m s =
    let first = vmm_map_page-Spent m page_table i (u64 (i + offset)) flags c s in
    let rest =
      map_from-Spent page_table n (i + page_size) offset flags c
        (vmm_map_page m page_table i (u64 (i + offset)) flags c) first.sound in
    Spent-more (3 * suc n) (omega arith) (Spent-trans first rest)

-- vmm_map_range takes at most three pages for each page that it maps.
pub vmm_map_range-Spent :
    (m : Vm) (page_table start end offset flags : ℕ) (c : PatCache)
    → IsSound m.pmm
    → Spent m.pmm (vmm_map_range m page_table start end offset flags c).pmm (3 * rounds start end)
unfolding vmm_map_range
vmm_map_range-Spent m page_table start end offset flags c s =
    map_from-Spent page_table _ _ _ _ _ m s
