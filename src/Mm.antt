-- ===== src/Mm.antt =====
-- mm.c and mm.h: rounding, the physical page allocator, and the virtual memory map.
pub mod Round
pub mod Pmm
pub mod Vmm
