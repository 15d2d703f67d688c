-- ===== src/Boot.antt =====
-- The unauthenticated boot surface, backend/internal/boot.
pub mod Context
pub mod AnswerFile
pub mod Script
pub mod Serve
pub mod Discovery
pub mod Queue
pub mod Tokens
pub mod Reports
pub mod Parts
pub mod Installing
pub mod Chain
