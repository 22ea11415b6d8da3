-- ===== src/Metrics.antt =====
-- pkg/metrics: the registry of counters, and its text.
pub mod Labels
pub mod Registry
pub mod Render
pub mod Histogram
pub mod Counters
