-- ===== src/Monitor.antt =====
-- kernel/usac/project1 and kernel/usac/examples: the system calls that report on the system.
pub mod Usage
pub mod Snapshot
pub mod Throttle
mod Tests
