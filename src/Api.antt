-- ===== src/Api.antt =====
-- The REST API, backend/internal/api: one module for each file of handlers. A handler takes the
-- database, the decoded request and the clock, and returns its response with the database after it.
mod Fixtures
mod Examples
mod BootExamples
mod AccountExamples
pub mod Respond
pub mod Access
pub mod Users
pub mod Installations
pub mod Hosts
pub mod Setup
pub mod Auth
pub mod Profiles
pub mod AnswerPreview
pub mod Routes
pub mod NetworkSettings
