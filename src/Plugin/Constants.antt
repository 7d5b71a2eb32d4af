-- ===== src/Plugin/Constants.antt =====
-- k8s/upgrade/src/plugin/constants.rs. The version that the plugin was built from is a parameter.
use Prim.Native.Char.{code}
use Prim.Native.String.{[], ◌∷◌}
use mayastor_extensions.Prelude.{ℕ, String, Option, none, some, ◌==◌, str_append, if◌then◌else◌}

abbrev pub upgrade_job_image_tag : String
upgrade_job_image_tag = "develop"

abbrev pub default_image_registry : String
default_image_registry = "docker.io"

abbrev pub upgrade_job_name_suffix : String
upgrade_job_name_suffix = "upgrade"

abbrev pub upgrade_config_map : String
upgrade_config_map = "upgrade-config-map"

abbrev pub upgrade_config_map_mount_path : String
upgrade_config_map_mount_path = "/upgrade-config-map"

abbrev pub service_account_suffix : String
service_account_suffix = "upgrade-service-account"

abbrev pub cluster_role_suffix : String
cluster_role_suffix = "upgrade-role"

abbrev pub cluster_role_binding_suffix : String
cluster_role_binding_suffix = "upgrade-role-binding"

abbrev pub config_map_suffix : String
config_map_suffix = "upgrade-config-map"

abbrev pub api_rest_label_selector : String
api_rest_label_selector = "app=api-rest"

abbrev pub io_engine_pod_label : String
io_engine_pod_label = "app=io-engine"

abbrev pub agent_core_pod_label : String
agent_core_pod_label = "app=agent-core"

abbrev pub api_rest_pod_label : String
api_rest_pod_label = "app=api-rest"

abbrev pub single_replica_volume : ℕ
single_replica_volume = 1

abbrev pub max_retry_attempts : ℕ
max_retry_attempts = 6

-- `replace('.', "-")`
unfoldable dots_to_dashes : String → String
dots_to_dashes [] = ""
dots_to_dashes (c ∷ rest) =
    let rest' = dots_to_dashes rest in if code c == 46 then str_append "-" rest' else c ∷ rest'

-- `get_image_version_tag()` of `release_version()`
unfoldable pub image_version_tag : Option String → String
image_version_tag none = upgrade_job_image_tag
image_version_tag (some tag) = tag

unfoldable pub upgrade_obj_suffix : Option String → String
unfolding image_version_tag dots_to_dashes
upgrade_obj_suffix version = dots_to_dashes (image_version_tag version)

-- "<release>-<component>-<version>"
unfoldable pub upgrade_name_concat : Option String → String → String → String
upgrade_name_concat version release_name component_name =
    str_append release_name
      (str_append "-" (str_append component_name (str_append "-" (upgrade_obj_suffix version))))

-- "<registry>/<repo>/<name>:<tag>"
unfoldable pub upgrade_image_concat : String → String → String → String → String
upgrade_image_concat registry repo name tag =
    str_append registry
      (str_append "/" (str_append repo (str_append "/" (str_append name (str_append ":" tag)))))

-- The events of the upgrade's Job.
unfoldable pub upgrade_event_selector : Option String → String → String → String
upgrade_event_selector version release_name component_name =
    str_append "involvedObject.kind=Job,involvedObject.name="
      (upgrade_name_concat version release_name component_name)
