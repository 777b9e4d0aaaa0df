-- ===== src/Build.antt =====
-- src/createbuild.c: the address of a new build.
pub mod Address
pub mod Search
pub mod Site
pub mod Full
pub mod Assigned
pub mod Tests
