-- ===== src/Kernel.antt =====
-- kinit_all of src/kernel/kernel.c: the order in which the parts of the kernel are initialised, what
-- they hand on to each other, and the tests of realloc at its end.
use apopt_os.Base.{
  ℕ, ◌*◌, ◌-◌, ◌/◌, ◌%◌, ◌^◌, u64, ◌+◌, Option, none, some, List, ◌==◌, if◌then◌else◌,
  higher_half_data,
}
use apopt_os.Str.{Memory}
use apopt_os.Boot.{read_bytes, stivale2_get_tag}
use apopt_os.Pmm.Init.{MmapEntry, pmm_init}
use apopt_os.Vmm.Ops.{Vm, vmm_init}
use apopt_os.Pic.{Device}
use apopt_os.Tables.Gdt.{GdtState, gdt_init}
use apopt_os.Tables.Idt.{IdtState, idt_init}
use apopt_os.Slab.Heap.{put}
use apopt_os.Malloc.Ops.{
  State, Result, returns, panics, diverges, malloc, realloc, malloc_heap_init,
}

-- The states of the parts. The page frame allocator is part of the virtual memory manager's, and the
-- heap gets it as it is after vmm_init.
pub record Kernel : Type 0 where
  pub vm : Vm
  pub root_page_table : ℕ
  pub gdt : GdtState
  pub idt : IdtState
  pub heap : State

pub data Init : Type 0 where
  ready : Kernel → Init
  stopped : Init
  endless : Init

-- pmm_init, vmm_init, gdt_init and idt_init, with the addresses of the tables and of the handlers. The
-- words of the tables and the bitmap are stores of their own: where vmm_init runs out of pages, the
-- source fills page 0 with zeros, and with it a bitmap that lies there, which is not shown here.
unfoldable pub kinit_tables : (ℕ → ℕ) → Device → ℕ → ℕ → Kernel → List MmapEntry → Kernel
kinit_tables isr_vector device gdt_at idt_at k memmap =
    let (p, memmap') = pmm_init memmap in
    let (root, vm) = vmm_init (record k.vm { pmm = p }) memmap' in
    record {
      vm = vm;
      root_page_table = root;
      gdt = gdt_init gdt_at k.gdt;
      idt = idt_init isr_vector device idt_at k.idt;
      heap = record k.heap { heap = record k.heap.heap { pmm = vm.pmm } };
    }

abbrev pub and_then : Result → (ℕ → State → Result) → Result
and_then (returns p s) next = next p s
and_then panics next = panics
and_then diverges next = diverges

-- `ptr[i] = value` for an `int`
unfoldable pub store_int : State → ℕ → ℕ → ℕ → State
store_int s ptr i value =
    let a = u64 (ptr + 4 * i) in
    record s {
      bytes =
          put
            (put (put (put s.bytes a (value % 256)) (u64 (a + 1)) (value / 256 % 256)) (u64 (a + 2))
              (value / 256 ^ 2 % 256))
            (u64 (a + 3)) (value / 256 ^ 3 % 256);
    }

-- -120 as an `int`
abbrev pub minus_120 : ℕ
minus_120 = 2 ^ 32 - 120

-- The tests of realloc behind the heap's initialisation; what they print is left out.
unfoldable pub realloc_tests : ℕ → State → Result
realloc_tests fuel s = and_then (malloc fuel s (10 * 4)) λ ptr s1.
    and_then (realloc fuel s1 ptr (40 * 4)) λ ptr' s2.
      and_then (malloc fuel (store_int s2 ptr' 100 minus_120) (10 * 4)) λ ptr1 s3.
        and_then (realloc fuel (store_int s3 ptr1 3 minus_120) ptr1 (4 * 4)) λ ptr1' s4.
          and_then (malloc fuel s4 (10 * 4))
            λ ptr2 s5. realloc fuel (store_int s5 ptr2 3 minus_120) ptr2 (10 * 4)

abbrev pub then_ready : Kernel → Result → Init
then_ready k (returns p s) = ready (record k { heap = s })
then_ready k panics = stopped
then_ready k diverges = endless

-- The tag has its address behind the two numbers that every tag has.
abbrev pub with_hhdm : Memory → Option ℕ → Init → Init
with_hhdm m none next = endless
with_hhdm m (some hhdm) next =
    if read_bytes m (hhdm + 16) 8 == higher_half_data then next else stopped

unfoldable pub kinit_all :
    ℕ → Memory → ℕ → ℕ → (ℕ → ℕ) → Device → ℕ → ℕ → Kernel → List MmapEntry → Init
kinit_all fuel m hhdm_id tags isr_vector device gdt_at idt_at k memmap =
    let k' = kinit_tables isr_vector device gdt_at idt_at k memmap in
    with_hhdm m (stivale2_get_tag m hhdm_id fuel tags)
      (then_ready k' (and_then (malloc_heap_init k'.heap) λ p s. realloc_tests fuel s))
