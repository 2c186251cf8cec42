-- ===== src/Metrics.antt =====
-- src/observability/metrics: what a process measures of itself, and the page that a scrape reads.
--
-- The Prometheus client is a parameter: the operations of its metrics that the code calls, with the
-- laws that its documentation gives.
pub mod Client
pub mod Http
pub mod Depth
pub mod Pool
pub mod Registry
pub mod Sweep
mod Tests
