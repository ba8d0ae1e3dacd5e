-- ===== src/Mm.antt =====
-- The memory managers of mm/: physical pages, the kernel heap and page tables.
pub mod Pmm
pub mod Heap
pub mod Vmm
pub mod Pgdir
pub mod Mmap
