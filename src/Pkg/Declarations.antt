-- ===== src/Pkg/Declarations.antt =====
-- The declarations that a package carries beside its manifest, and their checks.
pub mod Operations
pub mod Schedule
pub mod Subscriptions
pub mod Webhooks
pub mod Revocation
