-- ===== src/Vmm/Boot.antt =====
-- vmm_init of src/kernel/memory/virtual/vmm.c: the address space of the kernel.
use apopt_os.Base.{
  some, ◌≤◌, ℕ, ◌+◌, ◌*◌, ◌^◌, ◌<◌, ◌≡◌, refl, List, [], ◌∷◌, page_size, gib, heap_max_size,
  heap_start_addr, higher_half_data, higher_half_code, phys_to_higher_half_data,
  higher_half_data_to_phys, arith,
}
use apopt_os.Pmm.Init.{MmapEntry}
use apopt_os.Pmm.Supply.{free_pages, IsSound, Spent, Spent-none, Spent-more, Spent-trans}
use apopt_os.Vmm.Ops.{
  Vm, uncacheable, kernel_read, kernel_read_write, allocz_table, vmm_map_range, map_entries, rounds,
  vmm_load_page_table, vmm_init,
}
use apopt_os.Vmm.Space.{over_range, AddressSpace}
use apopt_os.Vmm.Supply.{vmm_map_range-Spent}
use apopt_os.Vmm.Root.{empty_space, allocz_table-Spent, allocz_table-IsSpace, loaded-IsSpace}
use apopt_os.Vmm.Refine.{IsSpace, entry_for}
use apopt_os.Vmm.Ranges.{vmm_map_range-IsSpace}

-- a range that is mapped without caching
abbrev pub with_range : AddressSpace → ℕ → ℕ → ℕ → ℕ → AddressSpace
with_range s start end offset flags =
    over_range s start end offset (λ phys. some (entry_for flags uncacheable phys))

-- For each entry of the memory map, as many pages as it is long, from address 0 on.
abbrev pub with_entries : AddressSpace → List MmapEntry → AddressSpace
with_entries s [] = s
with_entries s (e ∷ es) =
    with_entries (with_range s 0 e.length higher_half_data kernel_read_write) es

-- What vmm_init maps: the first four GiB at their own addresses and at those of the higher half, the
-- heap, two GiB read-only at the kernel's code, and the entries of the memory map.
abbrev pub kernel_space : List MmapEntry → AddressSpace
kernel_space memmap =
    with_entries
      (with_range
        (with_range
          (with_range (with_range empty_space 0 (4 * gib) 0 kernel_read_write) 0 (4 * gib)
            higher_half_data kernel_read_write)
          0 heap_max_size heap_start_addr kernel_read_write)
        0 (2 * gib) higher_half_code kernel_read)
      memmap

-- The entries are short enough not to wrap around the 2 ^ 36 pages.
abbrev pub AreShort : List MmapEntry → Type 0
AreShort [] = Unit {0}
AreShort (e ∷ es) = (e.length + page_size ≤ 2 ^ 48) × AreShort es

-- The pages that the entries have.
abbrev pub entry_pages : List MmapEntry → ℕ
entry_pages [] = 0
entry_pages (e ∷ es) = rounds 0 e.length + entry_pages es

module _ (root : ℕ) where
  map_entries-Spent :
      (es : List MmapEntry) (m : Vm)
      → IsSound m.pmm
      → Spent m.pmm (map_entries m (phys_to_higher_half_data root) es).pmm (3 * entry_pages es)
  unfolding map_entries
  map_entries-Spent [] m s = Spent-none s
  map_entries-Spent (e ∷ es) m s =
      let pml4 = phys_to_higher_half_data root in
      let m1 = vmm_map_range m pml4 0 e.length higher_half_data kernel_read_write uncacheable in
      let first =
        vmm_map_range-Spent m pml4 0 e.length higher_half_data kernel_read_write uncacheable s in
      Spent-more _ (omega arith) (Spent-trans first (map_entries-Spent es m1 first.sound))

  map_entries-IsSpace :
      (es : List MmapEntry) (m : Vm) (s : AddressSpace)
      → AreShort es
      → IsSpace root s m
      → 0 < free_pages (map_entries m (phys_to_higher_half_data root) es).pmm
      → IsSpace root (with_entries s es) (map_entries m (phys_to_higher_half_data root) es)
  unfolding map_entries
  map_entries-IsSpace [] m s short is free = is
  map_entries-IsSpace (e ∷ es) m s (short, rest) is free =
      let pml4 = phys_to_higher_half_data root in
      let m1 = vmm_map_range m pml4 0 e.length higher_half_data kernel_read_write uncacheable in
      let spent =
        vmm_map_range-Spent m pml4 0 e.length higher_half_data kernel_read_write uncacheable
          is.tree.1.sound in
      let spent' = map_entries-Spent es m1 spent.sound in
      let first =
        vmm_map_range-IsSpace root kernel_read_write uncacheable (omega arith) refl m s 0 e.length
          higher_half_data (omega (arith, short)) (omega (arith, short)) is
          (omega (arith, free, spent'.fewer)) in
      map_entries-IsSpace es m1 _ rest first free

-- A bound on the pages that vmm_init takes: the root, and three for each page that it maps.
abbrev pub table_pages : List MmapEntry → ℕ
table_pages memmap =
    1
    + 3 * rounds 0 (4 * gib)
    + 3 * rounds 0 (4 * gib)
    + 3 * rounds 0 heap_max_size
    + 3 * rounds 0 (2 * gib)
    + 3 * entry_pages memmap

pub vmm_init-Spent :
    (m : Vm) (memmap : List MmapEntry)
    → IsSound m.pmm
    → Spent m.pmm (vmm_init m memmap).1.pmm (table_pages memmap)
unfolding vmm_init vmm_load_page_table
vmm_init-Spent m memmap s =
    let (a, m0) = allocz_table m in
    let root = phys_to_higher_half_data a in
    let m1 = vmm_map_range m0 root 0 (4 * gib) 0 kernel_read_write uncacheable in
    let m2 = vmm_map_range m1 root 0 (4 * gib) higher_half_data kernel_read_write uncacheable in
    let m3 = vmm_map_range m2 root 0 heap_max_size heap_start_addr kernel_read_write uncacheable in
    let m4 = vmm_map_range m3 root 0 (2 * gib) higher_half_code kernel_read uncacheable in
    let s0 = allocz_table-Spent m s in
    let s1 = vmm_map_range-Spent m0 root 0 (4 * gib) 0 kernel_read_write uncacheable s0.sound in
    let s2 =
      vmm_map_range-Spent m1 root 0 (4 * gib) higher_half_data kernel_read_write uncacheable
        s1.sound in
    let s3 =
      vmm_map_range-Spent m2 root 0 heap_max_size heap_start_addr kernel_read_write uncacheable
        s2.sound in
    let s4 =
      vmm_map_range-Spent m3 root 0 (2 * gib) higher_half_code kernel_read uncacheable s3.sound in
    let s5 = map_entries-Spent a memmap m4 s4.sound in
    Spent-trans (Spent-trans (Spent-trans (Spent-trans (Spent-trans s0 s1) s2) s3) s4) s5

-- From a sound page allocator and a memory map whose entries are by a page or more shorter than 2 ^ 48
-- bytes, where vmm_init leaves a free page: the tables that it builds are a tree from the register cr3
-- on, and their address space is the kernel's.
pub vmm_init-IsSpace :
    (m : Vm) (memmap : List MmapEntry)
    → IsSound m.pmm
    → AreShort memmap
    → 0 < free_pages (vmm_init m memmap).1.pmm
    → let vm = (vmm_init m memmap).1 in IsSpace vm.cr3 (kernel_space memmap) vm
unfolding vmm_init vmm_load_page_table
vmm_init-IsSpace m memmap s short free =
    let (a, m0) = allocz_table m in
    let root = phys_to_higher_half_data a in
    let m1 = vmm_map_range m0 root 0 (4 * gib) 0 kernel_read_write uncacheable in
    let m2 = vmm_map_range m1 root 0 (4 * gib) higher_half_data kernel_read_write uncacheable in
    let m3 = vmm_map_range m2 root 0 heap_max_size heap_start_addr kernel_read_write uncacheable in
    let m4 = vmm_map_range m3 root 0 (2 * gib) higher_half_code kernel_read uncacheable in
    let s0 = (allocz_table-Spent m s).sound in
    let s1 = vmm_map_range-Spent m0 root 0 (4 * gib) 0 kernel_read_write uncacheable s0 in
    let s2 =
      vmm_map_range-Spent m1 root 0 (4 * gib) higher_half_data kernel_read_write uncacheable
        s1.sound in
    let s3 =
      vmm_map_range-Spent m2 root 0 heap_max_size heap_start_addr kernel_read_write uncacheable
        s2.sound in
    let s4 =
      vmm_map_range-Spent m3 root 0 (2 * gib) higher_half_code kernel_read uncacheable s3.sound in
    let s5 = map_entries-Spent a memmap m4 s4.sound in
    let f4 : 0 < free_pages m4.pmm = omega (arith, free, s5.fewer) in
    let f3 : 0 < free_pages m3.pmm = omega (arith, f4, s4.fewer) in
    let f2 : 0 < free_pages m2.pmm = omega (arith, f3, s3.fewer) in
    let f1 : 0 < free_pages m1.pmm = omega (arith, f2, s2.fewer) in
    let f0 : 0 < free_pages m0.pmm = omega (arith, f1, s1.fewer) in
    let i0 = allocz_table-IsSpace m s f0 in
    let i1 =
      vmm_map_range-IsSpace a kernel_read_write uncacheable (omega arith) refl m0 _ 0 (4 * gib) 0
        (omega arith) (omega arith) i0 f1 in
    let i2 =
      vmm_map_range-IsSpace a kernel_read_write uncacheable (omega arith) refl m1 _ 0 (4 * gib)
        higher_half_data (omega arith) (omega arith) i1 f2 in
    let i3 =
      vmm_map_range-IsSpace a kernel_read_write uncacheable (omega arith) refl m2 _ 0 heap_max_size
        heap_start_addr (omega arith) (omega arith) i2 f3 in
    let i4 =
      vmm_map_range-IsSpace a kernel_read uncacheable (omega arith) refl m3 _ 0 (2 * gib)
        higher_half_code (omega arith) (omega arith) i3 f4 in
    let i5 = map_entries-IsSpace a memmap m4 _ short i4 free in
    let small = i0.tree.1.bounded a (omega (arith, i0.tree.1.top)) in
    let back : higher_half_data_to_phys root ≡ a = omega arith in rw back (loaded-IsSpace a i5)
