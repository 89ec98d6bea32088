-- ===== src/Metrics.antt =====
-- internal/metrics: the HTTP service over the stored telemetry.
pub mod Pagination
pub mod Sorter
pub mod Auth
pub mod Query
pub mod Service
pub mod Handler
pub mod Routes
pub mod StoreAdapter
pub mod Process
pub mod Logging
