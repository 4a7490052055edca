-- ===== src/Openstack.antt =====
-- The OpenStack side: the connection, the servers of Nova and the VM lifecycle engine.
pub mod Server
pub mod Connection
pub mod Lifecycle
pub mod Client
pub mod Cached
pub mod Calls
pub mod Summary
pub mod Compute
pub mod Volumes
pub mod Networks
pub mod Images
pub mod Storage
pub mod Keypairs
pub mod Flavors
pub mod Projects
pub mod Routers
pub mod SecurityGroups
