-- ===== src/Vmm/Ops.antt =====
-- The functions of vmm.c. A page table is 512 words of 8 bytes; it is reached at its physical address
-- or through the higher half, which is the same memory.
use apopt_os.Base.{
  ℕ, zero, suc, ◌+◌, ◌-◌, ◌*◌, ◌/◌, ◌%◌, ◌^◌, List, [], ◌∷◌, bit_or, u64, leb, ◌==◌, if◌then◌else◌,
  page_size, align_down, align_up, gib, higher_half_data, higher_half_code, heap_max_size,
  heap_start_addr, phys_to_higher_half_data, higher_half_data_to_phys,
}
use apopt_os.Pmm.{Pmm, pmm_alloc}
use apopt_os.Pmm.Init.{MmapEntry}
use apopt_os.Str.Laws.{within}
use apopt_os.Slab.Heap.{put}

-- `pat_cache_t` (hardware/cpu.h)
pub data PatCache : Type 0 where
  uncacheable write_combining write_through write_protected write_back uncached : PatCache

-- The bits of a page table entry, `1 << k`.
abbrev pub pte_present : ℕ
pte_present = 1

abbrev pub pte_read_write : ℕ
pte_read_write = 2

abbrev pub pte_write_through : ℕ
pte_write_through = 8

abbrev pub pte_cache_disabled : ℕ
pte_cache_disabled = 16

abbrev pub pte_pat : ℕ
pte_pat = 128

abbrev pub kernel_read : ℕ
kernel_read = pte_present

abbrev pub kernel_read_write : ℕ
kernel_read_write = bit_or pte_present pte_read_write

-- The page allocator, the words of memory by physical address, the addresses whose translation has
-- been flushed, the latest first, and the register CR3.
pub record Vm : Type 0 where
  pub pmm : Pmm
  pub words : ℕ → ℕ
  pub flushed : List ℕ
  pub cr3 : ℕ

-- The physical address of entry `i` of the table at `table`.
unfoldable pub cell : ℕ → ℕ → ℕ
cell table i =
    let a = u64 (table + 8 * i) in if leb higher_half_data a then a - higher_half_data else a

-- `pmm_allocz(1)`
unfoldable pub allocz_table : Vm → ℕ × Vm
allocz_table m =
    let (p, a) = pmm_alloc m.pmm 1 in
    (a, record m { pmm = p; words = λ x. if within a page_size x then 0 else m.words x })

-- `pml[i] & ~(511)`
abbrev pub table_of : ℕ → ℕ
table_of entry = entry / 512 * 512

unfoldable pub vmm_get_or_create_pml : Vm → ℕ → ℕ → ℕ → ℕ × Vm
vmm_get_or_create_pml m pml i flags =
    let x = cell pml i in
    let m' =
      if m.words x % 2 == 0
      then (let (a, t) = allocz_table m in record t { words = put t.words x (bit_or a flags) })
      else m in
    (table_of (m'.words x), m')

unfoldable pub vmm_pat_cache_to_flags : PatCache → ℕ
vmm_pat_cache_to_flags uncacheable = 0
vmm_pat_cache_to_flags write_combining = pte_write_through
vmm_pat_cache_to_flags write_through = pte_pat
vmm_pat_cache_to_flags write_protected = bit_or pte_pat pte_write_through
vmm_pat_cache_to_flags write_back = bit_or pte_pat pte_cache_disabled
vmm_pat_cache_to_flags uncached = bit_or (bit_or pte_pat pte_cache_disabled) pte_write_through

-- `(virt_page & ((uintptr_t)0x1ff << k)) >> k`
abbrev pub index_at : ℕ → ℕ → ℕ
index_at virt_page k = virt_page / 2 ^ k % 512

unfoldable pub vmm_flush_tlb : Vm → ℕ → Vm
vmm_flush_tlb m address = record m { flushed = address ∷ m.flushed }

-- The store of the entry in the last table.
unfoldable pub set_entry : Vm → ℕ → ℕ → ℕ → Vm
set_entry m pt i value = record m { words = put m.words (cell pt i) value }

unfoldable pub vmm_set_pt_value : Vm → ℕ → ℕ → ℕ → ℕ → PatCache → Vm
vmm_set_pt_value m page_table virt_page pt_value flags pat_type =
    let l3 = vmm_get_or_create_pml m page_table (index_at virt_page 39) flags in
    let l2 = vmm_get_or_create_pml l3.1 l3.0 (index_at virt_page 30) flags in
    let l1 = vmm_get_or_create_pml l2.1 l2.0 (index_at virt_page 21) flags in
    vmm_flush_tlb
      (set_entry l1.1 l1.0 (index_at virt_page 12)
        (bit_or (bit_or pt_value flags) (vmm_pat_cache_to_flags pat_type)))
      virt_page

unfoldable pub vmm_map_page : Vm → ℕ → ℕ → ℕ → ℕ → PatCache → Vm
vmm_map_page m page_table phys_page virt_page flags pat_type =
    vmm_set_pt_value m page_table (align_down virt_page) phys_page flags pat_type

-- The cache type 0 is PAT_UNCACHEABLE.
unfoldable pub vmm_unmap_page : Vm → ℕ → ℕ → Vm
vmm_unmap_page m page_table virt_page =
    vmm_set_pt_value m page_table (align_down virt_page) 0 0 uncacheable

-- the rounds of `for (i = ALIGN_DOWN(start); i < ALIGN_UP(end); i += PAGE_SIZE)`
abbrev pub rounds : ℕ → ℕ → ℕ
rounds start end = (align_up end - align_down start) / page_size

unfoldable pub map_from : Vm → ℕ → ℕ → ℕ → ℕ → ℕ → PatCache → Vm
map_from m page_table zero i offset flags pat_type = m
map_from m page_table (suc n) i offset flags pat_type =
    map_from (vmm_map_page m page_table i (u64 (i + offset)) flags pat_type) page_table n
      (i + page_size) offset flags pat_type

unfoldable pub vmm_map_range : Vm → ℕ → ℕ → ℕ → ℕ → ℕ → PatCache → Vm
vmm_map_range m page_table start end offset flags pat_type =
    map_from m page_table (rounds start end) (align_down start) offset flags pat_type

unfoldable pub unmap_from : Vm → ℕ → ℕ → ℕ → Vm
unmap_from m page_table zero i = m
unmap_from m page_table (suc n) i =
    unmap_from (vmm_unmap_page m page_table i) page_table n (i + page_size)

unfoldable pub vmm_unmap_range : Vm → ℕ → ℕ → ℕ → Vm
vmm_unmap_range m page_table start end =
    unmap_from m page_table (rounds start end) (align_down start)

unfoldable pub vmm_load_page_table : Vm → ℕ → Vm
vmm_load_page_table m page_table = record m { cr3 = higher_half_data_to_phys page_table }

-- The entries of the memory map are mapped by their length only.
unfoldable pub map_entries : Vm → ℕ → List MmapEntry → Vm
map_entries m root [] = m
map_entries m root (e ∷ es) =
    map_entries (vmm_map_range m root 0 e.length higher_half_data kernel_read_write uncacheable)
      root es

-- vmm_init without its PAT register and its log lines; with the state, `root_page_table`.
unfoldable pub vmm_init : Vm → List MmapEntry → ℕ × Vm
vmm_init m memmap =
    let (a, m0) = allocz_table m in
    let root = phys_to_higher_half_data a in
    let m1 = vmm_map_range m0 root 0 (4 * gib) 0 kernel_read_write uncacheable in
    let m2 = vmm_map_range m1 root 0 (4 * gib) higher_half_data kernel_read_write uncacheable in
    let m3 = vmm_map_range m2 root 0 heap_max_size heap_start_addr kernel_read_write uncacheable in
    let m4 = vmm_map_range m3 root 0 (2 * gib) higher_half_code kernel_read uncacheable in
    (root, vmm_load_page_table (map_entries m4 root memmap) root)
