-- ===== src/Cmd.antt =====
-- The start-up code, backend/cmd/helboot.
mod Examples
pub mod LeaseRestore
pub mod Services
