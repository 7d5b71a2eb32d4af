-- ===== src/Upgrade/Models.antt =====
-- The objects that the upgrade job reads from the storage REST API (openapi::models) and from
-- Kubernetes (k8s_openapi), with the fields that it looks at.
use mayastor_extensions.Prelude.{
  ℕ, String, Bool, true, false, ◌&&◌, Option, none, some, List, [], ◌∷◌, ◌==◌, str_eq,
}

-- openapi `CordonDrainState`. The lists are `cordonlabels` and `drainlabels`.
pub data CordonDrainState : Type 0 where
  cordonedstate : List String → CordonDrainState
  drainingstate : List String → List String → CordonDrainState
  drainedstate : List String → List String → CordonDrainState

pub record NodeSpec : Type 0 where
  pub cordondrainstate : Option CordonDrainState

pub record Node : Type 0 where
  pub id : String
  pub spec : Option NodeSpec

pub data VolumeStatus : Type 0 where
  unknown online degraded faulted shutdown : VolumeStatus

pub record Child : Type 0 where
  pub uri : String
  pub rebuild_progress : Option ℕ

-- `volume.state.target`
pub record Nexus : Type 0 where
  pub node : String
  pub children : List Child

pub record ReplicaTopology : Type 0 where
  pub node : Option String

-- `volume.spec.target`, with the names of its frontend nodes.
pub record VolumeTarget : Type 0 where
  pub node : String
  pub frontend_nodes : Option (List String)

pub record VolumeSpec : Type 0 where
  pub uuid : String
  pub size : ℕ
  pub num_replicas : ℕ
  pub target : Option VolumeTarget

pub record VolumeState : Type 0 where
  pub status : VolumeStatus
  pub target : Option Nexus
  pub replica_topology : List (String × ReplicaTopology)

pub record Volume : Type 0 where
  pub spec : VolumeSpec
  pub state : VolumeState

pub record PodCondition : Type 0 where
  pub type_ : String
  pub status : String

pub record PodStatus : Type 0 where
  pub conditions : Option (List PodCondition)

pub record PodSpec : Type 0 where
  pub node_name : Option String

-- `name` is `name_any()`.
pub record Pod : Type 0 where
  pub name : String
  pub spec : Option PodSpec
  pub status : Option PodStatus

pub record ControllerRevision : Type 0 where
  pub name : String
  pub revision : ℕ
  pub labels : List (String × String)

-- Derived equality.
abbrev option_eq {ℓ} : {A : Type ℓ} → (A → A → Bool) → Option A → Option A → Bool
option_eq eq none none = true
option_eq eq (some a) (some b) = eq a b
option_eq eq _ _ = false

abbrev list_eq {ℓ} : {A : Type ℓ} → (A → A → Bool) → List A → List A → Bool
list_eq eq [] [] = true
list_eq eq (a ∷ l) (b ∷ m) = eq a b && list_eq eq l m
list_eq eq _ _ = false

abbrev status_eq : VolumeStatus → VolumeStatus → Bool
status_eq unknown unknown = true
status_eq online online = true
status_eq degraded degraded = true
status_eq faulted faulted = true
status_eq shutdown shutdown = true
status_eq _ _ = false

child_eq : Child → Child → Bool
child_eq a b = str_eq a.uri b.uri && option_eq ◌==◌ a.rebuild_progress b.rebuild_progress

nexus_eq : Nexus → Nexus → Bool
unfolding child_eq
nexus_eq a b = str_eq a.node b.node && list_eq child_eq a.children b.children

topology_eq : String × ReplicaTopology → String × ReplicaTopology → Bool
topology_eq a b = str_eq a.0 b.0 && option_eq str_eq a.1.node b.1.node

target_eq : VolumeTarget → VolumeTarget → Bool
target_eq a b = str_eq a.node b.node && option_eq (list_eq str_eq) a.frontend_nodes b.frontend_nodes

-- `PartialEq for Volume`, on the fields that are modelled.
unfoldable pub volume_eq : Volume → Volume → Bool
unfolding nexus_eq topology_eq target_eq
volume_eq a b =
    str_eq a.spec.uuid b.spec.uuid
    && a.spec.size == b.spec.size
    && a.spec.num_replicas == b.spec.num_replicas
    && option_eq target_eq a.spec.target b.spec.target
    && status_eq a.state.status b.state.status
    && option_eq nexus_eq a.state.target b.state.target
    && list_eq topology_eq a.state.replica_topology b.state.replica_topology
