-- ===== src/Provider.antt =====
-- Providers, backend/internal/provider: their manifests and the settings schema.
mod Examples
pub mod Value
pub mod Schema
pub mod Manifest
pub mod Registry
