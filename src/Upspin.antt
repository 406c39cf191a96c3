-- ===== src/Upspin.antt =====
-- The package upspin.
pub mod File
mod Examples
