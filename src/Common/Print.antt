-- ===== src/Common/Print.antt =====
-- The formatted output of common.c (lines 9-70 and 85-113). What the writer is given is appended
-- to a list of bytes. A format and a string argument are objects with a NUL.
pub mod Number
pub mod Format
mod Tests
