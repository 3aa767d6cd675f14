-- ===== src/Collector.antt =====
-- internal/collector: from the entries of the connection map to the exported counters.
pub mod Keys
pub mod Metrics
pub mod Series
pub mod Cycle
pub mod Schedule
pub mod Overflow
