-- ===== src/Boot.antt =====
-- The boot of the kernel in student-distrib/kernel.c, with the segment descriptors of
-- student-distrib/x86_desc.h and the information of student-distrib/multiboot.h.
pub mod Segments
pub mod Report
pub mod Start
