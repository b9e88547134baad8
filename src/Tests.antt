-- ===== src/Tests.antt =====
-- The theorems at concrete inputs.
pub mod Sessions
pub mod Updates
pub mod Tables
pub mod Guards
pub mod Listing
pub mod Reconciles
pub mod Validates
