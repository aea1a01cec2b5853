-- ===== src/Store.antt =====
-- internal/store: the parts of the SQLite store that decide what a caller may reach.
pub mod FormScope
pub mod Grants
pub mod Quarantine
pub mod Rotation
pub mod ScopeList
pub mod Tokens
pub mod Registration
pub mod Housekeeping
mod Examples
