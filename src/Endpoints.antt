-- ===== src/Endpoints.antt =====
-- The HTTP endpoints of app/api/v1/endpoints/ that change something: each runs one call of a service as
-- an operation task.
pub mod Tracking
pub mod Entry
pub mod Settled
pub mod Compute
pub mod Networking
pub mod Resources
pub mod Records
pub mod Vmware
pub mod Repeated
pub mod Assessing
mod Tests
