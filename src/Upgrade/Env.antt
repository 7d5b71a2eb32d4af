-- ===== src/Upgrade/Env.antt =====
-- What the upgrade job finds outside itself, and the record of its calls. Kubernetes, the storage
-- REST API, helm, yq, the file system and the third-party crates are fields of `Env`: a reply is an
-- arbitrary function of the request and of all calls made before it, so a theorem over every `Env`
-- covers every behaviour of the cluster during the run.
use mayastor_extensions.Prelude.{ℕ, ℤ, String, Bool, Option, List}
use mayastor_extensions.Effect
use mayastor_extensions.Effect.{Reply}
use mayastor_extensions.Upgrade.Models.{Node, Volume, Pod, ControllerRevision}
use mayastor_extensions.Upgrade.Version.{Version, Semver}
use mayastor_extensions.Upgrade.Values.{CoreValues}
use mayastor_extensions.Upgrade.Error.{Error}
pub use Effect.{Reply, good, bad}

-- kube `ListParams` with the namespace of the client.
pub record ListParams : Type 0 where
  pub namespace : String
  pub label_selector : Option String
  pub field_selector : Option String
  pub limit : ℕ
  pub continue_token : Option String

-- kube `ObjectList`
pub record ObjectList (A : Type 0) : Type 0 where
  pub items : List A
  pub continue_ : Option String

-- openapi `Volumes`
pub record Volumes : Type 0 where
  pub entries : List Volume
  pub next_token : Option ℤ

-- std `process::Output`
pub record Output : Type 0 where
  pub success : Bool
  pub stdout : String
  pub stderr : String

-- `Chart` of helm/chart.rs and `HelmReleaseElement` of helm/client.rs
pub record Chart : Type 0 where
  pub name : String
  pub version : Version

pub record HelmReleaseElement : Type 0 where
  pub name : String
  pub chart : String

pub data EventType : Type 0 where
  normal warning : EventType

-- kube `Event`, and `EventNote` of events/event_recorder.rs
pub record Event : Type 0 where
  pub type_ : EventType
  pub reason : String
  pub note : Option String
  pub action : String

pub record EventNote : Type 0 where
  pub from_version : String
  pub to_version : String
  pub message : String

-- k8s `OwnerReference`, as far as the event recorder looks at it
pub record OwnerReference : Type 0 where
  pub kind : String
  pub name : String

-- A call with its reply. `pods_listed` is no call: `list_pods` leaves it when all its pages are read.
-- `delete_pod` carries the node that the job names in its log lines beside the call.
pub data Call : Type 0 where
  get_nodes : Reply (List Node) → Call
  get_node : String → Reply Node → Call
  put_node_cordon : String → String → Reply Unit → Call
  delete_node_cordon : String → String → Reply Unit → Call
  put_node_drain : String → String → Reply Unit → Call
  get_volumes : ℕ → Option ℤ → Reply Volumes → Call
  k8s_client : Reply Unit → Call
  list_pods : ListParams → Reply (ObjectList Pod) → Call
  list_nodes_metadata : ListParams → Reply (ObjectList String) → Call
  list_revisions : ListParams → Reply (ObjectList ControllerRevision) → Call
  list_crds : ListParams → Reply (ObjectList String) → Call
  pods_listed : Option String → Option String → List Pod → Call
  delete_pod : String → String → String → Reply Unit → Call
  sleep : ℕ → Call
  helm : List String → Reply Output → Call
  yq : List String → Option String → Reply Output → Call
  read_file : String → Reply String → Call
  create_tempfile : String → Reply String → Call
  write : String → String → Reply ℕ → Call
  get_pod : String → String → Reply (Option (List OwnerReference)) → Call
  get_namespace : String → Reply Unit → Call
  send : Event → Reply Unit → Call

-- The calls so far, the latest first.
abbrev pub Trace : Type 0
Trace = List Call

pub record Env : Type 0 where
  -- constants of the `utils` crate, and `product_train()`
  pub product_name : String
  pub product_train : String
  pub api_rest_label : String
  pub etcd_label : String
  pub csi_node_nvme_ana : String
  -- the rounds for which a loop that polls is followed
  pub rounds : ℕ
  pub semver : Semver
  -- url and REST client configuration
  pub parse_url : String → Reply String
  pub rest_configuration : String → Reply Unit
  -- the storage REST API
  pub get_nodes : Trace → Reply (List Node)
  pub get_node : Trace → String → Reply Node
  pub put_node_cordon : Trace → String → String → Reply Unit
  pub delete_node_cordon : Trace → String → String → Reply Unit
  pub put_node_drain : Trace → String → String → Reply Unit
  pub get_volumes : Trace → ℕ → Option ℤ → Reply Volumes
  -- Kubernetes
  pub k8s_client : Trace → Reply Unit
  pub list_pods : Trace → ListParams → Reply (ObjectList Pod)
  pub list_nodes_metadata : Trace → ListParams → Reply (ObjectList String)
  pub list_revisions : Trace → ListParams → Reply (ObjectList ControllerRevision)
  pub list_crds : Trace → ListParams → Reply (ObjectList String)
  pub delete_pod : Trace → String → String → Reply Unit
  pub get_pod : Trace → String → String → Reply (Option (List OwnerReference))
  pub send : Trace → Event → Reply Unit
  -- processes and files
  pub helm : Trace → List String → Reply Output
  pub yq : Trace → List String → Option String → Reply Output
  pub read_file : Trace → String → Reply String
  pub create_tempfile : Trace → String → Reply String
  pub write : Trace → String → String → Reply ℕ
  -- serde, semver
  pub parse_version : String → Reply Version
  pub parse_chart : String → Reply Chart
  pub parse_release_list : String → Reply (List HelmReleaseElement)
  pub parse_core_values : String → Reply CoreValues
  pub parse_umbrella_values : String → Reply CoreValues
  pub parse_unsupported_versions : Reply (List Version)
  pub note_json : EventNote → Reply String
  pub client_json : String → Reply String
  pub container_json : String → Reply String
  pub yaml_value : String → Reply String
  pub value_json : String → Reply String
  -- `Display` of the errors, derived by snafu
  pub display : Error → String
  -- the patterns that the job hands to the regex crate
  pub is_yaml_key : String → Bool
  pub is_yq_v4 : String → Bool
  pub is_umbrella_chart : String → Bool
  pub is_core_chart : String → Bool
  -- whether the `HashMap` of the CRD sets hands out the volume snapshots first
  pub snapshots_first : Bool
