-- ===== src/Malloc.antt =====
-- src/kernel/libk/malloc/malloc.c and malloc.h: the kernel heap over the slab caches and the PMM.
pub mod Sizes
pub mod Ops
pub mod Rounding
pub mod Init
pub mod Blocks
pub mod Pages
pub mod Resize
pub mod Tests
