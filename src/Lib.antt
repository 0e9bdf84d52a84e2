-- ===== src/Lib.antt =====
-- A model of apoptOS, a 64-bit x86 kernel, and proofs about it.
--
-- The parts, from the bottom up, with the files that model them:
--
--   * Base: the shared numbers, lists and lemmas. Base/Word.antt has the macros of
--     src/kernel/memory/mem.h and the wrap-around of machine words, as `% 2 ^ w`.
--   * Bitmap: src/kernel/libk/data_structs/bitmap.c. A bitmap is the list of its bytes.
--   * Str: memset, memcpy and memcmp of src/kernel/libk/string/string.c on a memory of bytes.
--   * Pmm: the page frame allocator, src/kernel/memory/physical/pmm.c. Its state is a record of the
--     three globals; pmm_init, pmm_alloc, pmm_allocz and pmm_free are functions on it. Supply counts
--     the pages that are free.
--   * Slab: the slab allocator, src/kernel/memory/dynamic/slab.c, which takes its pages from pmm_alloc.
--     The objects of the three structs live in a typed store, a record at each address.
--   * Malloc: malloc, free and realloc of src/kernel/libk/malloc/malloc.c, which call the slab
--     allocator for sizes of up to 512 bytes with their metadata, and pmm_allocz for larger ones.
--   * Vmm: the page tables, src/kernel/memory/virtual/vmm.c, with the PAT register that
--     src/kernel/hardware/cpu.h sets. The abstract view is an address space, the entry that the memory
--     management unit finds for every virtual address (Space). Tree says that the tables are pages of
--     their own, each named by one entry; Grow and Store are about the two ways in which
--     vmm_set_pt_value changes them, and Refine, Ranges, Unmap, Release and Boot lift this to the
--     operations. Supply counts the pages that the tables take.
--   * Spinlock: src/kernel/libk/lock/spinlock.h as a step relation. A processor has a place in the code
--     and an interrupt flag; the steps of all processors interleave in any order.
--   * Tables: src/kernel/tables, the interrupt and the global descriptor table (Idt, Gdt) and the
--     interrupt handler (Isr). The addresses that the linker chooses are parameters. Frame has the
--     macros of src/kernel/utility/definitions.inc that save and restore the registers around the
--     handler.
--   * Pic: the interrupt controllers of src/kernel/hardware/pic/pic.c. What the devices answer is a
--     parameter, a function of the writes so far.
--   * Boot: the search for a tag of the bootloader, src/kernel/boot/stivale2_boot.c.
--   * Acpi: the checks of the tables of the firmware and the search for one of them, in
--     src/kernel/hardware/acpi/acpi.c and src/kernel/hardware/acpi/tables/rsdp.c; the entries of the
--     MADT, which src/kernel/hardware/acpi/tables/madt.c sorts into four arrays (Madt, Scan).
--   * Apic: src/kernel/hardware/apic/apic.c and src/kernel/hardware/hpet/hpet.c. The registers in memory
--     are the list of the writes to them and a parameter, what a device answers to a read. An IOAPIC
--     is the address of its entry in the MADT; apic_init composes pic_disable, malloc, the bitmap,
--     the redirections and the timers.
--   * Smp: src/kernel/proc/smp/smp.c as a step relation. The steps of the processor that boots, in
--     smp_init and bsp_init, and of those that it starts, in ap_init, interleave in any order; the
--     increment of the counter is a read and a write, and the descriptor of the task state segment is
--     shared. Taking the lock, which Spinlock has in its single instructions, is one step here.
--   * Serial: the serial port and the log lines, src/kernel/hardware/com/com.c and debug.c and log.c of
--     src/kernel/libk/serial. What vsnprintf makes of a format is a parameter.
--   * Kernel: kinit_all of src/kernel/kernel.c, which composes Pmm, Vmm, Tables and Malloc in its order;
--     each part hands the page frame allocator on to the next. The tests of realloc at its end run on
--     the heap that they get.
--
-- Functions of the source keep their names. A loop over a list of known length is recursion on a
-- number of rounds that the source computes before the loop, and needs no fuel. A walk along the
-- pointers of a linked list in memory need not end; such a function takes fuel, and returns
-- `out_of_fuel` or `diverges` where it is used up. For a list of `n` slabs, `n + 1` is enough. An
-- allocation that grows its cache calls itself again; `depth` bounds these calls, and malloc, which
-- does not pass SLAB_AUTO_GROW, needs one. A checksum loop needs one more than the number of bytes,
-- of which its counter reaches 255 at most. The scan of the MADT needs one more than the number of
-- entries, and does not end at an entry of length 0; the wait for the HPET needs as many rounds as reads
-- of the counter up to the target. A wait for the serial port needs one more than the reads until its
-- buffer is empty. A call of debug_set_color with a colour of log.c needs the depth 1. A kernel panic
-- halts the machine, and is a result of its own, `halted`, `panics`, `halts` or `stopped`. A module
-- named Tests holds concrete runs.
--
-- The memory has several views: Str, Boot and Acpi read bytes, Vmm reads words of 8 bytes at physical
-- addresses, Slab reads whole objects. Each part uses one view, and the pages that pmm_allocz fills
-- with zeros read as zeros in each.
--
-- Not modelled: the calls of log by the other parts; the formatted output of src/kernel/libk/printf,
-- which is another project's; the vectors and the scheduler, which are empty; and the assembly but for that
-- frame. The names of caches are only printed. An access outside an object is
-- undefined in the source; a read outside the bitmap's bytes gives 0 and a write there does nothing,
-- and the lists of the MADT go on behind their blocks. The walk of the memory management unit is that
-- for pages of 4096 bytes, without the page-size bit and the rights of upper entries.
pub mod Base
pub mod Bitmap
pub mod Str
pub mod Pmm
pub mod Slab
pub mod Malloc
pub mod Vmm
pub mod Spinlock
pub mod Tables
pub mod Pic
pub mod Boot
pub mod Acpi
pub mod Apic
pub mod Smp
pub mod Serial
pub mod Kernel
