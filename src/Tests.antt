-- ===== src/Tests.antt =====
-- The theorems at concrete inputs.
mod Stores
mod Reports
mod Claims
mod Dispatches
mod Queues
mod Probes
mod Updates
mod Measures
mod Texts
mod Agents
mod Cycles
mod Deliveries
