-- ===== src/Upgrade.antt =====
-- The upgrade job: k8s/upgrade/src/bin/upgrade-job.
pub mod Error
pub mod Version
pub mod Models
pub mod Values
pub mod Env
pub mod Job
pub mod Constants
pub mod Rest
pub mod Kube
pub mod Pods
pub mod Cordon
pub mod Rebuild
pub mod DataPlane
pub mod Path
pub mod Events
pub mod Helm
pub mod Product
pub mod Opts
pub mod Lab
mod Tests
