-- ===== src/Tests.antt =====
-- Concrete systems, and the theorems at them.
pub mod Data
pub mod Files
pub mod Kernel
pub mod Screen
pub mod Devices
pub mod Processes
pub mod Library
pub mod Boot
pub mod Programs
pub mod Shell
