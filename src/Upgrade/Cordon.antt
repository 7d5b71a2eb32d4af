-- ===== src/Upgrade/Cordon.antt =====
-- Cordoning of storage nodes: `cordon_storage_node` and `uncordon_storage_node` of
-- k8s/upgrade/src/bin/upgrade-job/upgrade/utils.rs, `uncordon_drained_storage_node` and
-- `drain_storage_node` of upgrade/data_plane.rs.
use mayastor_extensions.Prelude.{
  ℕ, zero, suc, String, Bool, false, Option, some, List, any, str_eq, if◌then◌else◌,
}
use mayastor_extensions.Upgrade.Error.{empty_storage_node_spec}
use mayastor_extensions.Upgrade.Models.{
  CordonDrainState, cordonedstate, drainingstate, drainedstate,
}
use mayastor_extensions.Upgrade.Constants.{drain_for_upgrade}
use mayastor_extensions.Upgrade.Job.{M, pure, stuck, ok_or, reads, with_rounds, ◌>>=◌, ◌>>◌, pause}
use mayastor_extensions.Upgrade.Rest.{get_node, put_node_cordon, delete_node_cordon, put_node_drain}

-- `labels.contains(label)`
abbrev has_label : String → List String → Bool
has_label label labels = any (str_eq label) labels

unfoldable pub is_cordoned : String → Option CordonDrainState → Bool
is_cordoned label (some (cordonedstate labels)) = has_label label labels
is_cordoned label _ = false

unfoldable pub is_draining : String → Option CordonDrainState → Bool
is_draining label (some (drainingstate cordons drains)) = has_label label drains
is_draining label _ = false

unfoldable pub is_drained : String → Option CordonDrainState → Bool
is_drained label (some (drainedstate cordons drains)) = has_label label drains
is_drained label _ = false

-- `get_node(..)?.into_body().spec.ok_or(..)?.cordondrainstate`
unfoldable pub node_state : String → M (Option CordonDrainState)
unfolding get_node
node_state id = do
  node ← get_node id
  spec ← ok_or node.spec (empty_storage_node_spec id)
  pure spec.cordondrainstate

unfoldable pub cordon_storage_node : String → String → M (Unit {0})
unfolding is_cordoned
cordon_storage_node id label = do
  state ← node_state id
  if is_cordoned label state then pure tt else put_node_cordon id label

unfoldable pub uncordon_storage_node : String → String → M (Unit {0})
unfolding is_cordoned
uncordon_storage_node id label = do
  state ← node_state id
  if is_cordoned label state then delete_node_cordon id label else pure tt

-- The loop removes the drain label until the node is seen without it. A node that is still draining
-- counts as one without.
unfoldable pub uncordon_loop : ℕ → String → String → M (Unit {0})
unfolding is_drained
uncordon_loop zero id label = stuck
uncordon_loop (suc n) id label = do
  state ← node_state id
  if is_drained label state
      then (do delete_node_cordon id label; pause 1; uncordon_loop n id label)
      else pure tt

unfoldable pub uncordon_drained_storage_node : String → M (Unit {0})
uncordon_drained_storage_node id = do
  label ← reads drain_for_upgrade
  with_rounds λ n. uncordon_loop n id label

-- The loop waits while the node drains, returns when it has drained, and issues the drain otherwise.
unfoldable pub drain_loop : ℕ → String → String → M (Unit {0})
unfolding is_drained is_draining
drain_loop zero id label = stuck
drain_loop (suc n) id label = do
  state ← node_state id
  if is_draining label state
      then (do pause 5; drain_loop n id label)
      else if is_drained label state
      then pure tt
      else (do put_node_drain id label; drain_loop n id label)

unfoldable pub drain_storage_node : String → M (Unit {0})
drain_storage_node id = do label ← reads drain_for_upgrade; with_rounds λ n. drain_loop n id label
