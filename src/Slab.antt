-- ===== src/Slab.antt =====
-- src/kernel/memory/dynamic/slab.c and slab.h: caches of equal-sized objects on pages of the PMM.
pub mod Heap
pub mod Ops
pub mod Life
pub mod Layout
pub mod Fill
pub mod Frame
pub mod Grow
pub mod Walk
pub mod Use
pub mod Effect
pub mod Loss
pub mod Create
pub mod Supply
pub mod Tests
