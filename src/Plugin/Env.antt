-- ===== src/Plugin/Env.antt =====
-- What the kubectl plugin finds outside itself, and the record of its calls. As for the upgrade job, a
-- reply is an arbitrary function of all calls made before it.
use mayastor_extensions.Prelude.{ℕ, ℤ, String, Bool, Option, List}
use mayastor_extensions.Effect
use mayastor_extensions.Effect.{Reply}
use mayastor_extensions.Upgrade.Version.{Version, Semver}
use mayastor_extensions.Upgrade.Models.{Node}
use mayastor_extensions.Plugin.Role.{ClusterRole}
use mayastor_extensions.Plugin.Objects.{ServiceAccount, ClusterRoleBinding, ConfigMap, Job}
pub use Effect.{Reply, good, bad}

-- The kinds of objects that an upgrade needs, and the objects.
pub data Kind : Type 0 where
  service_account cluster_role cluster_role_binding config_map job : Kind

pub data Object : Type 0 where
  service_account : ServiceAccount → Object
  cluster_role : ClusterRole → Object
  cluster_role_binding : ClusterRoleBinding → Object
  config_map : ConfigMap → Object
  job : Job → Object

-- An object of the cluster, as far as it is looked at: `job.status`, and its field `succeeded`.
pub record JobStatus : Type 0 where
  pub succeeded : Option ℕ

pub record Found : Type 0 where
  pub status : Option JobStatus

-- k8s `Deployment`: its labels, and of its Pods' template what `ImageProperties` reads.
pub record Container : Type 0 where
  pub image : Option String
  pub image_pull_policy : Option String

pub record PodSpec : Type 0 where
  pub containers : List Container
  pub image_pull_secrets : Option (List String)

pub record DeploymentSpec : Type 0 where
  pub template : Option PodSpec

pub record Deployment : Type 0 where
  pub labels : Option (List (String × String))
  pub spec : Option DeploymentSpec

-- k8s `Event`; `event_time` is the time in microseconds.
pub record Event : Type 0 where
  pub action : Option String
  pub reason : Option String
  pub message : Option String
  pub event_time : Option ℕ

-- `UpgradeEvent` of plugin/upgrade.rs
pub record UpgradeEvent : Type 0 where
  pub from_version : String
  pub to_version : String
  pub message : String

pub record PersistentVolumeClaim : Type 0 where
  pub uid : Option String
  pub name : Option String

-- openapi `Volume`, as far as the checks read it; `rebuilds` are the `rebuild_progress` of the
-- children of its target, if it has one.
pub record Volume : Type 0 where
  pub uuid : String
  pub num_replicas : ℕ
  pub rebuilds : Option (List (Option ℕ))

pub record Volumes : Type 0 where
  pub entries : List Volume
  pub next_token : Option ℤ

-- plugin/user_prompt.rs
pub data Prompt : Type 0 where
  upgrade_warning rebuild_warning single_replica_volume_warning cordoned_node_warning : Prompt
  control_plane_pods_list data_plane_pods_list data_plane_pods_list_skip_restart : Prompt
  upgrade_job_started upgrade_path_not_valid upgrade_to_unsupported_version : Prompt
  delete_incomplete_job helm_upgrade_validation_error stable_to_unstable_upgrade : Prompt
  higher_to_lower_semver_upgrade : Prompt
  upgrade_dry_run_summary : String → Prompt

-- A call with its reply; `info`, `error` and `status` are what is shown to the
-- user.
pub data Call : Type 0 where
  k8s_client : Reply Unit → Call
  rest_client : Reply Unit → Call
  list_deployments : String → String → Reply (List Deployment) → Call
  list_pods : String → String → Reply (List (Option String)) → Call
  list_events : String → Reply (List Event) → Call
  delete_events : String → Reply Unit → Call
  list_pvc : Reply (List PersistentVolumeClaim) → Call
  get_opt : Kind → String → Reply (Option Found) → Call
  create : Object → Reply Unit → Call
  delete : Kind → String → Reply Unit → Call
  get_nodes : Reply (List Node) → Call
  get_volumes : ℕ → Option ℤ → Reply Volumes → Call
  read_file : String → Reply String → Call
  sleep : ℕ → Call
  status : UpgradeEvent → Call
  info : Prompt → String → Call
  error : Prompt → String → Call

abbrev pub Trace : Type 0
Trace = List Call

pub record Env : Type 0 where
  -- constants of the `utils` crate, and the version that the plugin was built from
  pub product_name : String
  pub product_domain_name : String
  pub product_train : String
  pub version_tag : Option String
  pub semver : Semver
  pub rounds : ℕ
  -- Kubernetes and the storage REST API
  pub k8s_client : Trace → Reply Unit
  pub rest_client : Trace → Reply Unit
  pub list_deployments : Trace → String → String → Reply (List Deployment)
  pub list_pods : Trace → String → String → Reply (List (Option String))
  pub list_events : Trace → String → Reply (List Event)
  pub delete_events : Trace → String → Reply Unit
  pub list_pvc : Trace → Reply (List PersistentVolumeClaim)
  pub get_opt : Trace → Kind → String → Reply (Option Found)
  pub create : Trace → Object → Reply Unit
  pub delete : Trace → Kind → String → Reply Unit
  pub get_nodes : Trace → Reply (List Node)
  pub get_volumes : Trace → ℕ → Option ℤ → Reply Volumes
  pub read_file : Trace → String → Reply String
  -- serde, semver
  pub parse_event : String → Reply UpgradeEvent
  pub parse_version : String → Reply Version
  pub parse_unsupported_versions : Reply (List Version)
  -- whether a text holds "develop"
  pub mentions_develop : String → Bool
