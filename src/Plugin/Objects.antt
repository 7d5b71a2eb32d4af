-- ===== src/Plugin/Objects.antt =====
-- k8s/upgrade/src/plugin/objects.rs: the objects that an upgrade creates, with the fields that are set.
-- Labels, probes and the environment of the container are constants, and left out.
pub mod Access
use mayastor_extensions.Prelude.{
  String, Bool, Option, List, [], ◌∷◌, ◌++◌, str_append, if◌then◌else◌,
}
use mayastor_extensions.Plugin.Role.{ObjectMeta}
use mayastor_extensions.Plugin.Constants.{
  cluster_role_binding_suffix, cluster_role_suffix, config_map_suffix, service_account_suffix,
  upgrade_config_map, upgrade_config_map_mount_path, upgrade_job_name_suffix, upgrade_name_concat,
}

-- `UpgradeArgs` of plugin/upgrade.rs
pub record UpgradeArgs : Type 0 where
  pub registry : Option String
  pub allow_unstable : Bool
  pub dry_run : Bool
  pub skip_data_plane_restart : Bool
  pub skip_single_replica_volume_validation : Bool
  pub skip_replica_rebuild : Bool
  pub skip_cordoned_node_validation : Bool
  pub skip_upgrade_path_validation_for_unsupported_version : Bool
  pub set : List String
  pub set_file : List String

pub record ServiceAccount : Type 0 where
  pub metadata : ObjectMeta

unfoldable pub upgrade_job_service_account : String → String → ServiceAccount
upgrade_job_service_account namespace name = record {
  metadata = record { name = name; namespace = namespace };
}

pub record Subject : Type 0 where
  pub kind : String
  pub name : String
  pub namespace : String

pub record RoleRef : Type 0 where
  pub api_group : String
  pub kind : String
  pub name : String

pub record ClusterRoleBinding : Type 0 where
  pub metadata : ObjectMeta
  pub role_ref : RoleRef
  pub subjects : List Subject

unfoldable pub upgrade_job_cluster_role_binding :
    Option String → String → String → ClusterRoleBinding
upgrade_job_cluster_role_binding version namespace release_name = record {
  metadata = record {
    name = upgrade_name_concat version release_name cluster_role_binding_suffix;
    namespace = namespace;
  };
  role_ref = record {
    api_group = "rbac.authorization.k8s.io";
    kind = "ClusterRole";
    name = upgrade_name_concat version release_name cluster_role_suffix;
  };
  subjects =
      (record {
        kind = "ServiceAccount";
        name = upgrade_name_concat version release_name service_account_suffix;
        namespace = namespace;
      })
      ∷ [];
}

-- The data is a map, as an association list.
pub record ConfigMap : Type 0 where
  pub metadata : ObjectMeta
  pub config : List (String × String)

unfoldable pub upgrade_configmap :
    Option String → List (String × String) → String → String → ConfigMap
upgrade_configmap version entries namespace release_name = record {
  metadata = record {
    name = upgrade_name_concat version release_name config_map_suffix;
    namespace = namespace;
  };
  config = entries;
}

-- `Job` with its single container, its volume and the volume's mount.
pub record Job : Type 0 where
  pub metadata : ObjectMeta
  pub args : List String
  pub image : String
  pub image_pull_policy : Option String
  pub image_pull_secrets : Option (List String)
  pub mount_path : String
  pub mount_name : String
  pub service_account_name : String
  pub volume_name : String
  pub volume_config_map : String

-- `join(",")`, `join("\n")`
unfoldable pub join : String → List String → String
join sep [] = ""
join sep (x ∷ []) = x
join sep (x ∷ y ∷ rest) = str_append x (str_append sep (join sep (y ∷ rest)))

unfoldable pub job_args : String → String → UpgradeArgs → String → List String
job_args namespace release_name args set_file =
    (str_append "--rest-endpoint=http://" (str_append release_name "-api-rest:8081")
      ∷ str_append "--namespace=" namespace
      ∷ str_append "--release-name=" release_name
      ∷ str_append "--helm-args-set=" (join "," args.set)
      ∷ str_append "--helm-args-set-file=" set_file
      ∷ [])
    ++ (if args.skip_data_plane_restart then "--skip-data-plane-restart" ∷ [] else [])
    ++ (if args.skip_upgrade_path_validation_for_unsupported_version
        then "--skip-upgrade-path-validation" ∷ []
        else [])

unfoldable pub upgrade_job :
    Option String
    → String
    → String
    → String
    → UpgradeArgs
    → String
    → Option (List String)
    → Option String
    → Job
upgrade_job version namespace image release_name args set_file pull_secrets pull_policy = record {
  metadata = record {
    name = upgrade_name_concat version release_name upgrade_job_name_suffix;
    namespace = namespace;
  };
  args = job_args namespace release_name args set_file;
  image = image;
  image_pull_policy = pull_policy;
  image_pull_secrets = pull_secrets;
  mount_path = upgrade_config_map_mount_path;
  mount_name = upgrade_config_map;
  service_account_name = upgrade_name_concat version release_name service_account_suffix;
  volume_name = upgrade_config_map;
  volume_config_map = upgrade_name_concat version release_name config_map_suffix;
}
