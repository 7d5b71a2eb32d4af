-- ===== src/Upgrade/Helm.antt =====
-- k8s/upgrade/src/bin/upgrade-job/helm: the helm upgrade of the control plane.
pub mod Number
pub mod Yq
pub mod Client
pub mod Values
pub mod Upgrader
