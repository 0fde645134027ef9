-- ===== src/Arrays.antt =====
-- controllers/array_action: connections to the storage arrays and the mediators over them.
pub mod Pool
pub mod Agents
pub mod Mediator
pub mod Mapping
pub mod Nguid
pub mod VolumeCache
pub mod Ds8k
pub mod Xiv
pub mod Svc
