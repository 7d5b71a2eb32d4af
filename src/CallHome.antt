-- ===== src/CallHome.antt =====
-- The call-home programs: call-home/src/bin/stats, which counts events, and call-home/src/bin/callhome,
-- which reports on the cluster.
pub mod Stats
pub mod Records
pub mod Volumes
pub mod Media
pub mod Logs
mod Tests
