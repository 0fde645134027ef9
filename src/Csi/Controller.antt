-- ===== src/Csi/Controller.antt =====
-- controllers/servers/csi/csi_controller_server.py: the handlers of the controller service, inside
-- `csi_method`.
pub mod Volumes
pub mod Publishing
pub mod Snapshots
pub mod CreateVolume
pub mod Deletion
pub mod Expansion
pub mod Creation
pub mod Unpublishing
