-- ===== src/Upgrade/Pods.antt =====
-- `all_pods_are_ready` of k8s/upgrade/src/bin/upgrade-job/upgrade/utils.rs
pub mod Ready
use mayastor_extensions.Prelude.{
  Bool, true, false, Option, none, some, List, [], ◌∷◌, str_eq, if◌then◌else◌,
}
use mayastor_extensions.Upgrade.Models.{Pod, PodStatus, PodCondition}

-- `pod.status.as_ref().and_then(|status| status.conditions.as_ref())`
abbrev pub conditions_of : Option PodStatus → Option (List PodCondition)
conditions_of none = none
conditions_of (some status) = status.conditions

-- The loop over the conditions: the first of type "Ready" decides, and without one the loop ends.
unfoldable pub conditions_pass : List PodCondition → Bool
conditions_pass [] = true
conditions_pass (c ∷ cs) =
    if str_eq c.type_ "Ready" then str_eq c.status "True" else conditions_pass cs

unfoldable pub pod_passes : Option (List PodCondition) → Bool
unfolding conditions_pass
pod_passes none = false
pod_passes (some conditions) = conditions_pass conditions

unfoldable pub all_pods_are_ready : List Pod → Bool
unfolding pod_passes
all_pods_are_ready [] = true
all_pods_are_ready (pod ∷ pods) =
    if pod_passes (conditions_of pod.status) then all_pods_are_ready pods else false
