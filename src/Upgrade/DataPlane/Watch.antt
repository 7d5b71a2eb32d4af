-- ===== src/Upgrade/DataPlane/Watch.antt =====
-- What an onlooker of the calls knows during the data-plane upgrade, and which calls are in order.
-- `hash` is the controller revision that the io-engine Pods are upgraded to.
use mayastor_extensions.Prelude.{
  String, Bool, true, false, ◌&&◌, ◌≡◌, Option, none, some, List, [], ◌∷◌, str_eq, if◌then◌else◌,
}
use mayastor_extensions.Upgrade.Models.{CordonDrainState, Pod, NodeSpec}
use mayastor_extensions.Upgrade.Env.{
  Env, Call, Trace, good, get_node, pods_listed, delete_pod, put_node_drain,
}
use mayastor_extensions.Upgrade.Constants.{agent_core_label, drain_for_upgrade}
use mayastor_extensions.Upgrade.Pods.{all_pods_are_ready}
use mayastor_extensions.Upgrade.Cordon.{is_drained}
use mayastor_extensions.Upgrade.DataPlane.{with_hash, on_node}

-- `core`, `rest`, `etcd`: the last listing of these Pods, after the last restart, found all of them
-- ready. `restarting`: the node whose io-engine Pod was deleted, until its only Pod of the new
-- revision was seen ready. `drained`: the nodes that were seen drained with the upgrade's label,
-- and not otherwise since.
pub record Watch : Type 0 where
  pub core : Bool
  pub rest : Bool
  pub etcd : Bool
  pub restarting : Option String
  pub drained : List String

abbrev pub unseen : Watch
unseen = record { core = false; rest = false; etcd = false; restarting = none; drained = [] }

abbrev pub spec_state : Option NodeSpec → Option CordonDrainState
spec_state none = none
spec_state (some spec) = spec.cordondrainstate

abbrev pub forget : String → List String → List String
forget id [] = []
forget id (x ∷ d) = let rest = forget id d in if str_eq x id then rest else x ∷ rest

abbrev pub look : Bool → String → List String → List String
look true id d = id ∷ d
look false id d = forget id d

-- A single Pod, and it is ready.
abbrev pub is_replaced : List Pod → Bool
is_replaced [] = false
is_replaced (pod ∷ []) = all_pods_are_ready (pod ∷ [])
is_replaced (pod ∷ other ∷ pods) = false

abbrev pub replace : Bool → Option String → Option String
replace true r = none
replace false r = r

abbrev awaits : Option String → String → Bool
awaits none field = false
awaits (some node) field = str_eq (on_node node) field

abbrev is_label : String → Option String → Bool
is_label label none = false
is_label label (some l) = str_eq label l

abbrev pub see_pods : Env → String → Option String → Option String → List Pod → Watch → Watch
see_pods env hash labels none pods w = record w {
  core = if is_label agent_core_label labels then all_pods_are_ready pods else w.core;
  rest = if is_label env.api_rest_label labels then all_pods_are_ready pods else w.rest;
  etcd = if is_label env.etcd_label labels then all_pods_are_ready pods else w.etcd;
}
see_pods env hash labels (some field) pods w = record w {
  restarting =
      replace (is_label (with_hash hash) labels && awaits w.restarting field && is_replaced pods)
        w.restarting;
}

abbrev observe : Env → String → Call → Watch → Watch
observe env hash (pods_listed labels fields pods) w = see_pods env hash labels fields pods w
observe env hash (delete_pod namespace name node reply) w = record w {
  core = false;
  rest = false;
  etcd = false;
  restarting = some node;
}
observe env hash (get_node id (good node)) w = record w {
  drained = look (is_drained (drain_for_upgrade env) (spec_state node.spec)) id w.drained;
}
observe env hash _ w = w

abbrev pub watch : Env → String → Trace → Watch
watch env hash [] = unseen
watch env hash (call ∷ t) = observe env hash call (watch env hash t)

-- No node is drained but perhaps this one.
abbrev pub FreeFor : List String → String → Type 0
FreeFor [] id = Unit {0}
FreeFor (x ∷ d) id = (x ≡ id) × FreeFor d id

-- A Pod is deleted only while no other is being replaced, the control plane was seen running since
-- the last restart, and no other node is drained. A node is drained only while no Pod is being
-- replaced and no other node is drained.
abbrev InOrder : Watch → Call → Type 0
InOrder w (delete_pod namespace name node reply) =
    (w.restarting ≡ none)
    × (w.core ≡ true)
    × (w.rest ≡ true)
    × (w.etcd ≡ true)
    × FreeFor w.drained node
InOrder w (put_node_drain id label reply) = (w.restarting ≡ none) × FreeFor w.drained id
InOrder w _ = Unit {0}

-- Every call was in order when it was made.
abbrev pub Guarded : Env → String → Trace → Type 0
Guarded env hash [] = Unit {0}
Guarded env hash (call ∷ t) = InOrder (watch env hash t) call × Guarded env hash t

-- All calls were in order, and `P` is known.
abbrev pub Sees : Env → String → (Watch → Type 0) → Trace → Type 0
Sees env hash P t = Guarded env hash t × P (watch env hash t)
