-- ===== src/Measure.antt =====
-- measurement.py: one cycle of a probe agent, from the subscription to the report.
pub mod Fetch
pub mod Xray
pub mod Probes
pub mod Run
pub mod Report
pub mod Cycle
