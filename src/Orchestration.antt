-- ===== src/Orchestration.antt =====
-- The services that keep their records in the database: operation tasks, migrations, scaling policies,
-- scheduled tasks and clusters.
pub mod Tasks
pub mod Migrations
pub mod Operations
pub mod Stamps
pub mod Readback
pub mod Clusters
mod Tests
