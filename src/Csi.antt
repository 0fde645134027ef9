-- ===== src/Csi.antt =====
-- The gRPC layer: controllers/servers/csi.
pub mod Status
pub mod Lock
pub mod Responses
pub mod Session
pub mod Controller
pub mod GroupMembers
pub mod VolumeGroups
pub mod Replication
