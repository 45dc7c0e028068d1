-- ===== src/Store.antt =====
-- internal/database: the functions that the services call, as programs.
pub mod Admissions
pub mod Orders
pub mod Stock
pub mod Identities
