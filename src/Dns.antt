-- ===== src/Dns.antt =====
-- src/zones.c: the program for DNS zones over the library.
pub mod Records
pub mod Reverse
pub mod Pairs
pub mod Mirror
pub mod Kept
pub mod Gained
pub mod InStep
pub mod Trim
pub mod Steps
pub mod Sync
pub mod Rebuilt
pub mod Host
pub mod Recorded
pub mod Commit
pub mod Glue
pub mod Delegated
mod Tests
mod HostTests
