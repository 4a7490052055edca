-- ===== src/Vmware.antt =====
-- The VMware side: inventory data, pre-migration assessment, planning and the vCenter pool.
pub mod Inventory
pub mod Assessment
pub mod Compatibility
pub mod Mapping
pub mod Plan
pub mod Parallel
pub mod Pool
pub mod Vim
pub mod Client
pub mod Factory
pub mod Discovery
