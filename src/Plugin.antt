-- ===== src/Plugin.antt =====
-- The kubectl plugin's side of an upgrade: k8s/upgrade/src/plugin.
pub mod Error
pub mod Constants
pub mod Text
pub mod Role
pub mod Objects
pub mod Env
pub mod Task
pub mod SetFile
pub mod Deployment
pub mod Resources
pub mod Events
pub mod Apply
pub mod Preflight
mod Tests
