-- ===== src/Store.antt =====
-- The persistence layer, backend/internal/store: one module for each table or group of tables.
pub mod Leases
pub mod Db
pub mod Users
pub mod Sessions
pub mod Settings
pub mod Isos
pub mod Profiles
pub mod Hosts
pub mod Installations
