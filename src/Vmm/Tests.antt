-- ===== src/Vmm/Tests.antt =====
-- Pages mapped and unmapped in an empty table of eight pages, and the tables of the kernel in 64 GiB.
use apopt_os.Base.{
  none, some, ◌==◌, true, List, suc, ◌∷◌, ◌+◌, ◌*◌, ◌<◌, page_size, higher_half_data, ℕ, ◌≡◌, refl,
  [], arith, align_down, phys_to_higher_half_data,
}
use apopt_os.Pmm.Init.{MmapEntry, mmap_usable}
use apopt_os.Pmm.Supply.{free_pages, Spent}
use apopt_os.Vmm.Ops.{vmm_unmap_range, uncacheable, vmm_map_range, vmm_unmap_page, vmm_init}
use apopt_os.Vmm.Space.{over_range, AddressSpace, page_of, with_page}
use apopt_os.Vmm.Supply.{vmm_map_page-Spent, vmm_map_range-Spent}
use apopt_os.Vmm.Refine.{IsSpace, entry_for, vmm_map_page-IsSpace}
use apopt_os.Vmm.Ranges.{vmm_map_range-IsSpace}
use apopt_os.Vmm.Release.{vmm_unmap_range-IsSpace}
use apopt_os.Vmm.Unmap.{vmm_unmap_page-vmm_map_page}
use apopt_os.Vmm.Root.{empty_space, allocz_table-Spent, allocz_table-IsSpace}
use apopt_os.Vmm.Boot.{kernel_space, vmm_init-Spent, vmm_init-IsSpace}
use apopt_os.Pmm.Spare.{one_used, one_used-free_pages, one_used-IsSound}
use apopt_os.Pmm.{Pmm}
use apopt_os.Vmm.Ops.{Vm, write_back, allocz_table, vmm_map_page}

abbrev virt_address : ℕ
virt_address = 0x8040201234

-- A memory of zeros.
abbrev zero_vm : ℕ → Vm
zero_vm n = record { pmm = one_used (suc n); words = λ _. 0; flushed = []; cr3 = 0 }

-- Eight pages, of which the second becomes an empty root table.
abbrev root_vm : Vm
root_vm = (allocz_table (zero_vm 0)).1

abbrev root_page : ℕ
root_page = (allocz_table (zero_vm 0)).0

root_vm-Spent : Spent (zero_vm 0).pmm root_vm.pmm 1
root_vm-Spent = allocz_table-Spent (zero_vm 0) (one_used-IsSound 0 (omega arith))

root_vm-IsSpace : IsSpace root_page empty_space root_vm
root_vm-IsSpace =
    allocz_table-IsSpace (zero_vm 0) (one_used-IsSound 0 (omega arith))
      (omega (arith, root_vm-Spent.enough, one_used-free_pages 0))

-- A page is left after up to two pages have been mapped.
mapped-free : {p : Pmm} {n : ℕ} → Spent root_vm.pmm p n → n < 6 → 0 < free_pages p
mapped-free spent h = omega (arith, spent.enough, root_vm-Spent.enough, one_used-free_pages 0)

one_page_mapped :
    0
    < free_pages
        (vmm_map_page root_vm
          (phys_to_higher_half_data root_page)
          0x7000
          virt_address
          3
          write_back).pmm
one_page_mapped =
    mapped-free
      (vmm_map_page-Spent root_vm (phys_to_higher_half_data root_page) 0x7000 virt_address 3
        write_back root_vm-Spent.sound)
      (omega arith)

vmm_map_page-IsSpace_example :
    IsSpace root_page
      (with_page empty_space virt_address (entry_for 3 write_back 0x7000))
      (vmm_map_page root_vm (phys_to_higher_half_data root_page) 0x7000 virt_address 3 write_back)
vmm_map_page-IsSpace_example =
    vmm_map_page-IsSpace root_page 3 write_back (omega arith) refl root_vm empty_space 0x7000
      virt_address root_vm-IsSpace one_page_mapped

vmm_map_range-IsSpace_example :
    IsSpace root_page
      (over_range empty_space 0x7000 0x7800 higher_half_data
        (λ phys. some (entry_for 3 uncacheable phys)))
      (vmm_map_range root_vm
        (phys_to_higher_half_data root_page)
        0x7000
        0x7800
        higher_half_data
        3
        uncacheable)
vmm_map_range-IsSpace_example =
    vmm_map_range-IsSpace root_page 3 uncacheable (omega arith) refl root_vm empty_space 0x7000
      0x7800 higher_half_data (omega arith) (omega arith) root_vm-IsSpace
      (mapped-free
        (vmm_map_range-Spent root_vm (phys_to_higher_half_data root_page) 0x7000 0x7800
          higher_half_data 3 uncacheable root_vm-Spent.sound)
        (omega arith))

vmm_unmap_page-vmm_map_page_example : IsSpace root_page empty_space (
    vmm_unmap_page
      (vmm_map_page root_vm (phys_to_higher_half_data root_page) 0x7000 virt_address 3 write_back)
      (phys_to_higher_half_data root_page)
      virt_address)
vmm_unmap_page-vmm_map_page_example =
    vmm_unmap_page-vmm_map_page root_vm empty_space root_page 0x7000 virt_address 3 write_back
      root_vm-IsSpace refl (omega arith) refl one_page_mapped

-- the state with one page mapped
abbrev mapped_vm : Vm
mapped_vm =
    vmm_map_page root_vm (phys_to_higher_half_data root_page) 0x7000 virt_address 3 write_back

abbrev one_page_space : AddressSpace
one_page_space = with_page empty_space virt_address (entry_for 3 write_back 0x7000)

range-mapped :
    (d : ℕ)
    → align_down virt_address + page_size * d < virt_address + 1
    → one_page_space (align_down virt_address + page_size * d)
      ≡ some (entry_for 3 write_back 0x7000)
range-mapped d h =
    let same : (page_of (align_down virt_address + page_size * d) == page_of virt_address) ≡ true =
      ground arith in
    rw same refl

vmm_unmap_range-IsSpace_example :
    IsSpace root_page (over_range one_page_space virt_address (virt_address + 1) 0 (λ page. none)) (
      vmm_unmap_range mapped_vm
        (phys_to_higher_half_data root_page)
        virt_address
        (virt_address + 1))
    × ((vmm_unmap_range mapped_vm
          (phys_to_higher_half_data root_page)
          virt_address
          (virt_address + 1)).pmm
        ≡ mapped_vm.pmm)
vmm_unmap_range-IsSpace_example =
    vmm_unmap_range-IsSpace mapped_vm one_page_space root_page virt_address (virt_address + 1)
      (λ d. entry_for 3 write_back 0x7000) (omega arith) (omega arith) vmm_map_page-IsSpace_example
      range-mapped

-- The kernel's own tables in 64 GiB, with an entry of the memory map of one MiB.
abbrev one_entry : List MmapEntry
one_entry = record { base = 0; length = 0x100000; kind = mmap_usable } ∷ []

vmm_init-IsSpace_example :
    let vm = (vmm_init (zero_vm 0x1FFFFF) one_entry).1 in IsSpace vm.cr3 (kernel_space one_entry) vm
vmm_init-IsSpace_example =
    let sound = one_used-IsSound 0x1FFFFF (omega arith) in
    let spent = vmm_init-Spent (zero_vm 0x1FFFFF) one_entry sound in
    vmm_init-IsSpace (zero_vm 0x1FFFFF) one_entry sound (omega arith, tt)
      (omega (arith, spent.enough, one_used-free_pages 0x1FFFFF))
