-- ===== src/Tests.antt =====
-- The theorems at concrete inputs.
mod Samples
mod Upgrades
mod Plans
mod Agents
mod Instances
mod Hubs
mod Servers
mod Entries
mod Networks
