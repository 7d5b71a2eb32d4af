-- ===== src/Exporter.antt =====
-- The metrics exporter of the io-engine: metrics-exporter/src/bin/io_engine.
pub mod Client
pub mod Cache
pub mod Collector
pub mod Serve
mod Tests
