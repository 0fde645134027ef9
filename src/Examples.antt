-- ===== src/Examples.antt =====
-- Concrete inputs: each example applies a theorem to one, where the theorem's hypotheses hold.
mod Fixture
mod Strings
mod Storage
mod Servers
mod Svc
mod Ds8k
mod Xiv
mod Agents
mod Hosts
mod Watchers
