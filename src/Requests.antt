-- ===== src/Requests.antt =====
-- controllers/servers/utils.py: what the servers read out of a request, and how they check it.
pub mod Ids
pub mod Secrets
pub mod Nodes
pub mod Parameters
pub mod Messages
pub mod Validation
pub mod Addons
