-- ===== src/Tests.antt =====
-- The theorems at concrete inputs, with concrete values of the interfaces.
mod Fixtures
mod Registries
mod Interleavings
mod Replays
mod Connections
mod Systems
mod Servers
mod Inputs
mod Metering
mod Publishing
