-- ===== src/Upgrade/DataPlane.antt =====
-- k8s/upgrade/src/bin/upgrade-job/upgrade/data_plane.rs: the io-engine Pods are restarted one by one.
pub mod Watch
pub mod Quiet
pub mod Nodes
pub mod Listings
pub mod Order
pub mod Safety
pub mod Finish
pub mod Calls
use mayastor_extensions.Prelude.{
  ℕ, zero, suc, String, Bool, true, false, not, ◌&&◌, Option, none, some, List, [], ◌∷◌, ◌++◌, any,
  str_eq, str_append, if◌then◌else◌,
}
use mayastor_extensions.Upgrade.Error.{
  empty_pod_spec, empty_pod_node_name, pod_delete, too_many_io_engine_pods,
}
use mayastor_extensions.Upgrade.Models.{Pod, PodSpec, Node, Volume, VolumeTarget}
use mayastor_extensions.Upgrade.Env.{Env, Call}
use mayastor_extensions.Upgrade.Constants.{
  io_engine_label, agent_core_label, controller_revision_hash_label_key, cordon_ana_check,
}
use mayastor_extensions.Upgrade.Job.{
  Outcome, done, failed, pending, M, pure, fail, stuck, ok_or, reads, request, with_rounds, ◌>>=◌,
  ◌>>◌, for_each, sleep_until,
}
use mayastor_extensions.Upgrade.Kube.{client, list_pods, list_nodes_metadata}
use mayastor_extensions.Upgrade.Rest.{new_with_url, get_nodes}
use mayastor_extensions.Upgrade.Pods.{all_pods_are_ready}
use mayastor_extensions.Upgrade.Cordon.{
  cordon_storage_node, uncordon_storage_node, uncordon_drained_storage_node, drain_storage_node,
}
use mayastor_extensions.Upgrade.Rebuild.{list_all_volumes, wait_for_rebuild}

-- "app=io-engine,controller-revision-hash=<hash>", and the same with `!=`.
abbrev pub with_hash : String → String
with_hash hash =
    str_append io_engine_label
      (str_append "," (str_append controller_revision_hash_label_key (str_append "=" hash)))

abbrev pub without_hash : String → String
without_hash hash =
    str_append io_engine_label
      (str_append "," (str_append controller_revision_hash_label_key (str_append "!=" hash)))

abbrev pub on_node : String → String
on_node node = str_append "spec.nodeName=" node

unfoldable pub is_running : String → List Pod → M Bool
is_running node [] = pure false
is_running node (pod ∷ []) = pure (all_pods_are_ready (pod ∷ []))
is_running node (pod ∷ other ∷ pods) = fail (too_many_io_engine_pods node)

unfoldable pub data_plane_pod_is_running : String → String → String → M Bool
unfolding is_running
data_plane_pod_is_running node namespace hash = do
  pods ← list_pods namespace (some (with_hash hash)) (some (on_node node))
  is_running node pods

unfoldable pub verify_data_plane_pod_is_running : String → String → String → M (Unit {0})
verify_data_plane_pod_is_running node namespace hash =
    with_rounds λ n. sleep_until n 5 (data_plane_pod_is_running node namespace hash)

-- etcd, agent-core, api-rest
unfoldable pub control_plane_is_running : String → M Bool
control_plane_is_running namespace = do
  core ← list_pods namespace (some agent_core_label) none
  rest_label ← reads (λ env. env.api_rest_label)
  rest ← list_pods namespace (some rest_label) none
  etcd_label ← reads (λ env. env.etcd_label)
  etcd ← list_pods namespace (some etcd_label) none
  pure (all_pods_are_ready core && all_pods_are_ready rest && all_pods_are_ready etcd)

unfoldable pub verify_control_plane_is_running : String → M (Unit {0})
verify_control_plane_is_running namespace =
    with_rounds λ n. sleep_until n 3 (control_plane_is_running namespace)

frontend_names : Option (List String) → List String
frontend_names none = []
frontend_names (some names) = names

target_frontends : String → Option VolumeTarget → List String
unfolding frontend_names
target_frontends node none = []
target_frontends node (some target) =
    if str_eq target.node node then frontend_names target.frontend_nodes else []

-- The frontend nodes of the volumes whose target is on the node.
unfoldable frontends_of : String → List Volume → List String
unfolding target_frontends
frontends_of node [] = []
frontends_of node (volume ∷ volumes) =
    target_frontends node volume.spec.target ++ frontends_of node volumes

unfoldable pub frontend_nodes_ana_check : String → List String → M Bool
unfolding frontends_of
frontend_nodes_ana_check node ana_disabled_nodes = do
  volumes ← list_all_volumes
  pure (not (any (λ name. any (str_eq name) (frontends_of node volumes)) ana_disabled_nodes))

after_check : {A : Type 0} → Outcome A → M (Unit {0}) → M A
after_check (done a) finally = finally >> pure a
after_check (failed e) finally = finally >> fail e
after_check pending finally = stuck

-- `let result = check.await; uncordon(..).await?; result`: the check's error waits for the uncordon.
unfoldable pub settle : {A : Type 0} → M A → M (Unit {0}) → M A
unfolding after_check
settle check finally env t = let (r, t') = check env t in after_check r finally env t'

ana_check : String → List String → M Bool
unfolding settle
ana_check node [] = pure true
ana_check node (name ∷ names) = do
  label ← reads cordon_ana_check
  cordon_storage_node node label
  settle (frontend_nodes_ana_check node (name ∷ names)) (uncordon_storage_node node label)

unfoldable pub is_node_drainable : Bool → String → M Bool
unfolding ana_check
is_node_drainable ha_is_enabled node = if not ha_is_enabled then pure false else do
  label ← reads (λ env. str_append env.csi_node_nvme_ana "=false")
  ana_disabled_nodes ← list_nodes_metadata (some label) none
  ana_check node ana_disabled_nodes

unfoldable pub delete_data_plane_pod : String → Pod → String → M (Unit {0})
unfolding client
delete_data_plane_pod node pod namespace = do
  client
  request (λ env t. env.delete_pod t namespace pod.name) (Call.delete_pod namespace pod.name node)
      (λ s. pod_delete s pod.name node)

unfoldable pub drain_if : Bool → String → M (Unit {0})
drain_if drainable node = if drainable then drain_storage_node node else pure tt

-- The part of the loop that follows the control plane's check and the Pod's node name.
unfoldable pub restart_on : String → Bool → String → Pod → String → M (Unit {0})
restart_on namespace ha_is_enabled hash pod node = do
  wait_for_rebuild node
  drainable ← is_node_drainable ha_is_enabled node
  drain_if drainable node
  delete_data_plane_pod node pod namespace
  verify_data_plane_pod_is_running node namespace hash
  uncordon_drained_storage_node node

-- The body of `for pod in initial_io_engine_pod_list`.
unfoldable pub upgrade_pod : String → Bool → String → Pod → M (Unit {0})
upgrade_pod namespace ha_is_enabled hash pod = do
  verify_control_plane_is_running namespace
  spec ← ok_or pod.spec (empty_pod_spec pod.name namespace)
  node ← ok_or spec.node_name (empty_pod_node_name pod.name namespace)
  restart_on namespace ha_is_enabled hash pod node

pods_round : M (Unit {0}) → (List Pod → M (Unit {0})) → List Pod → M (Unit {0})
pods_round again body [] = pure tt
pods_round again body (pod ∷ pods) = body (pod ∷ pods) >> again

-- The outer `loop`: it ends when no Pod is left to upgrade.
unfoldable pub upgrade_rounds : ℕ → String → Bool → String → String → M (Unit {0})
unfolding pods_round
upgrade_rounds zero namespace ha_is_enabled hash left_label = stuck
upgrade_rounds (suc n) namespace ha_is_enabled hash left_label = do
  pods ← list_pods namespace (some left_label) none
  pods_round (upgrade_rounds n namespace ha_is_enabled hash left_label)
      (λ pods. for_each pods (upgrade_pod namespace ha_is_enabled hash)) pods

unfoldable pub upgrade_all : String → String → String → Bool → String → M (Unit {0})
upgrade_all namespace rest_endpoint hash ha_is_enabled left_label = do
  new_with_url rest_endpoint
  storage_nodes ← get_nodes
  for_each storage_nodes (λ node. uncordon_drained_storage_node node.id)
  with_rounds λ n. upgrade_rounds n namespace ha_is_enabled hash left_label

unfoldable pub upgrade_data_plane :
    String → String → String → Bool → String → List Pod → M (Unit {0})
upgrade_data_plane namespace rest_endpoint hash ha_is_enabled left_label [] = pure tt
upgrade_data_plane namespace rest_endpoint hash ha_is_enabled left_label (pod ∷ pods) =
    upgrade_all namespace rest_endpoint hash ha_is_enabled left_label
