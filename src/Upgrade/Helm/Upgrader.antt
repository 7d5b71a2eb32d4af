-- ===== src/Upgrade/Helm/Upgrader.antt =====
-- k8s/upgrade/src/bin/upgrade-job/helm/upgrade.rs. A `HelmUpgrader` is a core or an umbrella one; the
-- future that `dry_run` returns is `runner`.
use mayastor_extensions.Prelude.{
  String, Bool, Option, none, some, List, [], ◌∷◌, ◌++◌, if◌then◌else◌,
}
use mayastor_extensions.Upgrade.Error.{
  helm_upgrade_option_namespace_absent, helm_upgrade_option_release_name_absent,
  invalid_upgrade_path, no_input_helm_chart_dir, not_a_known_helm_chart, reading_file,
  rollback_forbidden, umbrella_chart_not_upgraded, yaml_parse_from_file, yaml_parse_from_slice,
}
use mayastor_extensions.Upgrade.Env.{Call}
use mayastor_extensions.Upgrade.Constants.{core_chart_name}
use mayastor_extensions.Upgrade.Version.{Version, eq, ge}
use mayastor_extensions.Upgrade.Values.{CoreValues}
use mayastor_extensions.Upgrade.Job.{
  M, pure, fail, ensure, lift, ok_or, reads, request, ◌>>=◌, ◌>>◌,
}
use mayastor_extensions.Upgrade.Path.{
  is_valid_for_core_chart, join, version_from_chart_yaml_file, version_from_release_chart,
}
use mayastor_extensions.Upgrade.Helm.Client.{
  HelmReleaseClient, get_values_as_yaml, release_info, upgrade,
}
use mayastor_extensions.Upgrade.Helm.Values.Generate.{generate_values_yaml_file}

pub record HelmUpgraderBuilder : Type 0 where
  pub release_name : Option String
  pub namespace : Option String
  pub core_chart_dir : Option String
  pub skip_upgrade_path_validation : Bool
  pub helm_args_set : Option String
  pub helm_args_set_file : Option String

pub record CoreHelmUpgrader : Type 0 where
  pub already_upgraded : Bool
  pub chart_dir : String
  pub release_name : String
  pub client : HelmReleaseClient
  pub helm_upgrade_extra_args : List String
  pub source_version : Version
  pub target_version : Version
  pub source_values : CoreValues

pub record UmbrellaHelmUpgrader : Type 0 where
  pub release_name : String
  pub client : HelmReleaseClient
  pub source_version : Version
  pub target_version : Version

pub data HelmUpgrader : Type 0 where
  core : CoreHelmUpgrader → HelmUpgrader
  umbrella : UmbrellaHelmUpgrader → HelmUpgrader

abbrev pub source_version : HelmUpgrader → Version
source_version (core u) = u.source_version
source_version (umbrella u) = u.source_version

abbrev pub target_version : HelmUpgrader → Version
target_version (core u) = u.target_version
target_version (umbrella u) = u.target_version

-- `CoreValues::try_from`, of a path and of bytes
unfoldable pub core_values_of_file : String → M CoreValues
core_values_of_file path = do
  buf ← request (λ env t. env.read_file t path) (Call.read_file path) (λ s. reading_file s path)
  lift (λ env. env.parse_core_values buf) (λ s. yaml_parse_from_file s path)

unfoldable pub core_values_of : String → M CoreValues
core_values_of buf = lift (λ env. env.parse_core_values buf) (λ s. yaml_parse_from_slice s buf)

unfoldable pub umbrella_values_of : String → M CoreValues
umbrella_values_of buf =
    lift (λ env. env.parse_umbrella_values buf) (λ s. yaml_parse_from_slice s buf)

-- What `build` has found out before it looks at the chart's name.
pub record Inputs : Type 0 where
  pub release_name : String
  pub chart_dir : String
  pub client : HelmReleaseClient
  pub chart : String
  pub source_version : Version
  pub target_version : Version
  pub source_values_buf : String

abbrev pub or_empty : Option String → String
or_empty none = ""
or_empty (some s) = s

-- Rollbacks and unsupported source versions are refused, unless the check is skipped.
unfoldable pub validate_path : Bool → Version → Version → M (Unit {0})
validate_path skip source target = if skip then pure tt else do
  semver ← reads (λ env. env.semver)
  ensure (ge semver target source)
      (rollback_forbidden (semver.to_string source) (semver.to_string target))
  valid ← is_valid_for_core_chart source
  ensure valid invalid_upgrade_path

unfoldable pub build_umbrella : Bool → Inputs → M HelmUpgrader
build_umbrella already_upgraded i = do
  ensure already_upgraded umbrella_chart_not_upgraded
  pure (
      umbrella (record {
        release_name = i.release_name;
        client = i.client;
        source_version = i.source_version;
        target_version = i.target_version;
      }))

abbrev pub upgrade_extra_args : String → String → String → List String
upgrade_extra_args values_file helm_args_set helm_args_set_file =
    "-f" ∷ values_file ∷ "--set" ∷ helm_args_set ∷ "--set-file" ∷ helm_args_set_file ∷ "--atomic"
    ∷ []

unfoldable pub build_core : Bool → HelmUpgraderBuilder → Inputs → M HelmUpgrader
unfolding validate_path core_values_of_file core_values_of
build_core already_upgraded builder i = do
  validate_path builder.skip_upgrade_path_validation i.source_version i.target_version
  target_values ← core_values_of_file (join i.chart_dir "values.yaml")
  source_values ← core_values_of i.source_values_buf
  file ←
      generate_values_yaml_file i.source_version i.target_version source_values target_values
        i.source_values_buf (join i.chart_dir "values.yaml") i.chart_dir
  pure (
      core (record {
        already_upgraded = already_upgraded;
        chart_dir = i.chart_dir;
        release_name = i.release_name;
        client = i.client;
        helm_upgrade_extra_args =
            upgrade_extra_args file (or_empty builder.helm_args_set)
              (or_empty builder.helm_args_set_file);
        source_version = i.source_version;
        target_version = i.target_version;
        source_values = source_values;
      }))

unfoldable pub gather : HelmUpgraderBuilder → M Inputs
gather builder = do
  release_name ← ok_or builder.release_name helm_upgrade_option_release_name_absent
  namespace ← ok_or builder.namespace helm_upgrade_option_namespace_absent
  core_chart ← reads core_chart_name
  chart_dir ← ok_or builder.core_chart_dir (no_input_helm_chart_dir core_chart)
  release ← release_info (record { namespace = namespace }) release_name
  source_version ← version_from_release_chart release.chart
  source_values_buf ← get_values_as_yaml (record { namespace = namespace }) release_name none
  target_version ← version_from_chart_yaml_file (join chart_dir "Chart.yaml")
  pure (record {
    release_name = release_name;
    chart_dir = chart_dir;
    client = record { namespace = namespace };
    chart = release.chart;
    source_version = source_version;
    target_version = target_version;
    source_values_buf = source_values_buf;
  })

-- The variant of the chart, by its name.
unfoldable pub build_variant : Bool → Bool → Bool → HelmUpgraderBuilder → Inputs → M HelmUpgrader
build_variant is_umbrella is_core already_upgraded builder i =
    if is_umbrella
    then build_umbrella already_upgraded i
    else if is_core
    then build_core already_upgraded builder i
    else fail (not_a_known_helm_chart i.chart)

unfoldable pub build : HelmUpgraderBuilder → M HelmUpgrader
build builder = do
  i ← gather builder
  semver ← reads (λ env. env.semver)
  is_umbrella ← reads (λ env. env.is_umbrella_chart i.chart)
  is_core ← reads (λ env. env.is_core_chart i.chart)
  build_variant is_umbrella is_core (eq semver i.target_version i.source_version) builder i

unfoldable pub dry_run : HelmUpgrader → M (Unit {0})
dry_run (umbrella u) = pure tt
dry_run (core u) =
    if u.already_upgraded
    then pure tt
    else upgrade u.client u.release_name u.chart_dir
        (some (u.helm_upgrade_extra_args ++ "--dry-run" ∷ []))

-- The `HelmUpgradeRunner` that a successful `dry_run` returns.
unfoldable pub runner : HelmUpgrader → M CoreValues
unfolding umbrella_values_of core_values_of
runner (umbrella u) = do
  final_values_buf ← get_values_as_yaml u.client u.release_name none
  umbrella_values_of final_values_buf
runner (core u) = if u.already_upgraded then pure u.source_values else do
  upgrade u.client u.release_name u.chart_dir (some u.helm_upgrade_extra_args)
  final_values_buf ← get_values_as_yaml u.client u.release_name none
  core_values_of final_values_buf
