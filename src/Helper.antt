-- ===== src/Helper.antt =====
-- lib/helper.c: from the names that a user gives to the identifiers that the database has for them.
pub mod Lookup
pub mod Default
pub mod Several
pub mod Check
pub mod Count
pub mod Replace
mod Tests
