-- ===== src/Vmm.antt =====
-- src/kernel/memory/virtual/vmm.c and vmm.h: four-level page tables.
pub mod Ops
pub mod Pat
pub mod Level
pub mod Walk
pub mod Space
pub mod Tree
pub mod Fresh
pub mod Grow
pub mod Store
pub mod Supply
pub mod Refine
pub mod Ranges
pub mod Unmap
pub mod Release
pub mod Root
pub mod Boot
pub mod Tests
