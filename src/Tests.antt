-- ===== src/Tests.antt =====
-- Concrete runs of the modelled code, at which the theorems apply.
pub mod Fixtures
pub mod Settling
pub mod Batches
pub mod Running
pub mod Checks
pub mod Indexing
pub mod Hiring
pub mod Serving
pub mod Jobs
pub mod Listing
