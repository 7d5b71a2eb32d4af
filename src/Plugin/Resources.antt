-- ===== src/Plugin/Resources.antt =====
-- `UpgradeResources` of k8s/upgrade/src/plugin/upgrade.rs: the objects of an upgrade are created and
-- deleted. Of the struct only the release's name is kept; its API handles are the calls.
pub mod Seen
pub mod Steps
pub mod Others
pub mod Order
use mayastor_extensions.Prelude.{
  ℕ, String, Bool, true, false, Option, none, some, List, [], ◌∷◌, ◌==◌, str_append, if◌then◌else◌,
}
use mayastor_extensions.Plugin.Error.{
  Error, cluster_role_binding_create, cluster_role_binding_delete, cluster_role_create,
  cluster_role_delete, get_cluster_role, get_cluster_role_binding, get_service_account,
  get_upgrade_config_map, get_upgrade_job, k8s_client_generation, service_account_create,
  service_account_delete, upgrade_config_map_create, upgrade_config_map_delete, upgrade_job_create,
  upgrade_job_delete, upgrade_job_not_present, upgrade_job_status_not_present,
}
use mayastor_extensions.Plugin.Env.{Call, Env, Found, JobStatus, Kind, Object}
use mayastor_extensions.Plugin.Constants.{
  cluster_role_binding_suffix, cluster_role_suffix, config_map_suffix, image_version_tag,
  service_account_suffix, upgrade_image_concat, upgrade_job_name_suffix, upgrade_name_concat,
}
use mayastor_extensions.Plugin.Role.{upgrade_job_cluster_role}
use mayastor_extensions.Plugin.Objects.{
  Job, UpgradeArgs, upgrade_configmap, upgrade_job, upgrade_job_cluster_role_binding,
  upgrade_job_service_account,
}
use mayastor_extensions.Plugin.SetFile.{Map, create_config_map_data, create_helm_set_file_args}
use mayastor_extensions.Plugin.Deployment.{
  ImageProperties, get_deployment_for_rest, get_release_name, image_properties,
}
use mayastor_extensions.Plugin.Task.{M, client, fail, ok_or, pure, reads, request, ◌>>=◌, ◌>>◌}

pub data Actions : Type 0 where
  create delete : Actions

-- `UpgradeArgs::new`
abbrev pub default_args : UpgradeArgs
default_args = record {
  registry = none;
  allow_unstable = false;
  dry_run = false;
  skip_data_plane_restart = false;
  skip_single_replica_volume_validation = false;
  skip_replica_rebuild = false;
  skip_cordoned_node_validation = false;
  skip_upgrade_path_validation_for_unsupported_version = false;
  set = [];
  set_file = [];
}

-- The name of the release's object of this kind.
abbrev suffix : Kind → String
suffix Kind.service_account = service_account_suffix
suffix Kind.cluster_role = cluster_role_suffix
suffix Kind.cluster_role_binding = cluster_role_binding_suffix
suffix Kind.config_map = config_map_suffix
suffix Kind.job = upgrade_job_name_suffix

abbrev pub name_of : Env → String → Kind → String
name_of env release kind = upgrade_name_concat env.version_tag release (suffix kind)

-- The three calls, with the error contexts of the kind.
abbrev get_error : Kind → String → String → Error
get_error Kind.service_account s name = get_service_account s name
get_error Kind.cluster_role s name = get_cluster_role s name
get_error Kind.cluster_role_binding s name = get_cluster_role_binding s name
get_error Kind.config_map s name = get_upgrade_config_map s name
get_error Kind.job s name = get_upgrade_job s name

abbrev create_error : Kind → String → String → Error
create_error Kind.service_account s name = service_account_create s name
create_error Kind.cluster_role s name = cluster_role_create s name
create_error Kind.cluster_role_binding s name = cluster_role_binding_create s name
create_error Kind.config_map s name = upgrade_config_map_create s name
create_error Kind.job s name = upgrade_job_create s name

abbrev delete_error : Kind → String → String → Error
delete_error Kind.service_account s name = service_account_delete s name
delete_error Kind.cluster_role s name = cluster_role_delete s name
delete_error Kind.cluster_role_binding s name = cluster_role_binding_delete s name
delete_error Kind.config_map s name = upgrade_config_map_delete s name
delete_error Kind.job s name = upgrade_job_delete s name

unfoldable pub get_opt : Kind → String → M (Option Found)
get_opt kind name =
    request (λ env t. env.get_opt t kind name) (Call.get_opt kind name) (λ s. get_error kind s name)

unfoldable pub create_object : Kind → String → Object → M (Unit {0})
create_object kind name object =
    request (λ env t. env.create t object) (Call.create object) (λ s. create_error kind s name)

unfoldable pub delete_object : Kind → String → M (Unit {0})
delete_object kind name =
    request (λ env t. env.delete t kind name) (Call.delete kind name)
      (λ s. delete_error kind s name)

-- Only an object that is not there is created, and only one that is there is deleted.
unfoldable pub act : Kind → String → M (Unit {0}) → Actions → Option Found → M (Unit {0})
act kind name creation Actions.create (some found) = pure tt
act kind name creation Actions.delete (some found) = delete_object kind name
act kind name creation Actions.create none = creation
act kind name creation Actions.delete none = pure tt

unfoldable pub service_account_actions : String → String → Actions → M (Unit {0})
service_account_actions release ns action = do
  name ← reads (λ env. name_of env release Kind.service_account)
  found ← get_opt Kind.service_account name
  act Kind.service_account name
      (create_object Kind.service_account name
        (Object.service_account (upgrade_job_service_account ns name)))
      action found

unfoldable pub cluster_role_actions : String → String → Actions → M (Unit {0})
cluster_role_actions release ns action = do
  name ← reads (λ env. name_of env release Kind.cluster_role)
  found ← get_opt Kind.cluster_role name
  act Kind.cluster_role name
      (create_object Kind.cluster_role name
        (Object.cluster_role (upgrade_job_cluster_role ns name)))
      action found

unfoldable pub cluster_role_binding_actions : String → String → Actions → M (Unit {0})
cluster_role_binding_actions release ns action = do
  name ← reads (λ env. name_of env release Kind.cluster_role_binding)
  found ← get_opt Kind.cluster_role_binding name
  version ← reads (λ env. env.version_tag)
  act Kind.cluster_role_binding name
      (create_object Kind.cluster_role_binding name
        (Object.cluster_role_binding (upgrade_job_cluster_role_binding version ns release)))
      action found

-- A ConfigMap that is there is replaced; for one that is not, the files are read again.
unfoldable pub config_map_act :
    String → String → String → List String → Map → Actions → Option Found → M (Unit {0})
config_map_act release ns name set_file entries Actions.create (some found) = do
  delete_object Kind.config_map name
  version ← reads (λ env. env.version_tag)
  create_object Kind.config_map name
      (Object.config_map (upgrade_configmap version entries ns release))
config_map_act release ns name set_file entries Actions.delete (some found) =
    delete_object Kind.config_map name
config_map_act release ns name set_file entries Actions.create none = do
  again ← create_config_map_data set_file
  version ← reads (λ env. env.version_tag)
  create_object Kind.config_map name
      (Object.config_map (upgrade_configmap version again.0 ns release))
config_map_act release ns name set_file entries Actions.delete none = pure tt

unfoldable pub config_map_actions : String → String → Actions → UpgradeArgs → M Map
unfolding config_map_act
config_map_actions release ns action args = do
  name ← reads (λ env. name_of env release Kind.config_map)
  made ← create_config_map_data args.set_file
  found ← get_opt Kind.config_map name
  config_map_act release ns name args.set_file made.0 action found
  pure made.1

-- `set_file.unwrap_or_default()`
abbrev or_default : Option String → String
or_default none = ""
or_default (some s) = s

-- The registry that the user names, or the one of the REST API's image.
abbrev registry_for : Option String → ImageProperties → String
registry_for (some override) img = override
registry_for none img = img.registry

abbrev upgrade_job_image : Env → String → String
upgrade_job_image env registry =
    upgrade_image_concat registry "openebs" (str_append env.product_name "-upgrade-job")
      (image_version_tag env.version_tag)

unfoldable pub create_job : String → String → String → UpgradeArgs → Option Map → M (Unit {0})
create_job release ns name args set_file_map = do
  deployment ← get_deployment_for_rest ns
  img ← image_properties deployment
  set_file ← create_helm_set_file_args args.set_file set_file_map
  image ← reads (λ env. upgrade_job_image env (registry_for args.registry img))
  version ← reads (λ env. env.version_tag)
  create_object Kind.job name (
      Object.job (
        upgrade_job version ns image release args (or_default set_file) img.pull_secrets
          img.pull_policy))

unfoldable pub job_actions : String → String → Actions → UpgradeArgs → Option Map → M (Unit {0})
job_actions release ns action args set_file_map = do
  name ← reads (λ env. name_of env release Kind.job)
  found ← get_opt Kind.job name
  act Kind.job name (create_job release ns name args set_file_map) action found

-- `UpgradeResources::new`
unfoldable pub new : String → M String
new ns = do client k8s_client_generation; get_release_name ns

unfoldable pub create_upgrade_resources : String → UpgradeArgs → M (Unit {0})
create_upgrade_resources ns args = do
  release ← new ns
  service_account_actions release ns Actions.create
  cluster_role_actions release ns Actions.create
  cluster_role_binding_actions release ns Actions.create
  set_file_map ← config_map_actions release ns Actions.create args
  job_actions release ns Actions.create args (some set_file_map)

unfoldable pub delete_upgrade_resources : String → M (Unit {0})
delete_upgrade_resources ns = do
  release ← new ns
  job_actions release ns Actions.delete default_args none
  config_map_actions release ns Actions.delete default_args
  cluster_role_binding_actions release ns Actions.delete
  cluster_role_actions release ns Actions.delete
  service_account_actions release ns Actions.delete

-- `status.succeeded` is 1.
abbrev pub succeeded_once : Option ℕ → Bool
succeeded_once none = false
succeeded_once (some count) = count == 1

unfoldable pub is_upgrade_job_completed : String → M Bool
is_upgrade_job_completed ns = do
  release ← new ns
  name ← reads (λ env. name_of env release Kind.job)
  found ← get_opt Kind.job name
  job ← ok_or found (upgrade_job_not_present name ns)
  status ← ok_or job.status (upgrade_job_status_not_present name)
  pure (succeeded_once status.succeeded)
