-- ===== src/Policy.antt =====
-- enfold/policy.py: scopes, server-side grants, and what a write must pass before it is stored.
pub mod Scopes
pub mod Grants
pub mod Writes
pub mod RunScopes
pub mod Effective
pub mod Admission
mod Tests
