-- ===== src/Common.antt =====
-- common.c and common.h: the C library's string functions that the kernel has for itself, the
-- formatted output, and `panic`.
pub mod Str
pub mod Print
