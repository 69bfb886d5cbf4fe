-- ===== src/Klib.antt =====
-- student-distrib/lib.c.
pub mod Text
pub mod Copy
pub mod Console
pub mod Memory
pub mod Number
pub mod Format
