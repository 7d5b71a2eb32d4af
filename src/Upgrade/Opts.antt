-- ===== src/Upgrade/Opts.antt =====
-- k8s/upgrade/src/bin/upgrade-job/opts/validators.rs, and `parse_cli_args` of main.rs after clap has
-- parsed the arguments. The texts that helm prints are taken to be UTF-8.
pub mod Chart
mod Tests
use mayastor_extensions.Prelude.{String, Bool, true, false, List, [], ◌∷◌, str_append, str_eq}
use mayastor_extensions.Effect.{Reply}
use mayastor_extensions.Upgrade.Error.{
  finding_helm_chart, get_namespace, helm_list_command, helm_release, helm_version,
  helm_version_command, not_a_directory, not_a_file, reading_file, regex_compile, validate_dir_path,
  validate_file_path, yaml_parse_from_file,
}
use mayastor_extensions.Upgrade.Env.{Call}
use mayastor_extensions.Upgrade.Constants.{core_chart_name}
use mayastor_extensions.Upgrade.Job.{M, ensure, lift, pure, reads, request, ◌>>=◌, ◌>>◌}
use mayastor_extensions.Upgrade.Kube.{client}
use mayastor_extensions.Upgrade.Rest.{get_nodes, new_with_url}
use mayastor_extensions.Upgrade.Helm.Client.{run_helm}
use mayastor_extensions.Upgrade.Path.{join}
use mayastor_extensions.Upgrade.Product.{CliArgs}

-- std `fs::FileType`
pub data FileType : Type 0 where
  directory : FileType
  regular : FileType
  special : FileType

-- What the validators ask beside what the job asks: `fs::metadata`, the regex crate (an expression
-- that does not compile, or whether it matches), a namespace of Kubernetes.
pub record Host : Type 0 where
  pub metadata : String → Reply FileType
  pub is_match : String → String → Reply Bool
  pub get_namespace : String → Reply Unit

-- `Metadata::is_dir` and `Metadata::is_file`
abbrev pub is_dir : FileType → Bool
is_dir directory = true
is_dir _ = false

abbrev pub is_file : FileType → Bool
is_file regular = true
is_file _ = false

module _ (host : Host) where
  -- `ensure!(path_exists_and_is_dir(path)?, NotADirectory { path })`
  unfoldable pub require_dir : String → M (Unit {0})
  require_dir path = do
    kind ← lift (λ env. host.metadata path) (λ s. validate_dir_path s path)
    ensure (is_dir kind) (not_a_directory path)

  -- `ensure!(path_exists_and_is_file(path)?, NotAFile { path })`
  unfoldable pub require_file : String → M (Unit {0})
  require_file path = do
    kind ← lift (λ env. host.metadata path) (λ s. validate_file_path s path)
    ensure (is_file kind) (not_a_file path)

  -- `Chart.yaml` names the core chart.
  unfoldable pub require_core_chart : String → M (Unit {0})
  require_core_chart dir_path = do
    core_chart ← reads core_chart_name
    buf ←
        request (λ env t. env.read_file t (join dir_path "Chart.yaml"))
          (Call.read_file (join dir_path "Chart.yaml"))
          (λ s. reading_file s (join dir_path "Chart.yaml"))
    chart_yaml ←
        lift (λ env. env.parse_chart buf) (λ s. yaml_parse_from_file s (join dir_path "Chart.yaml"))
    ensure (str_eq chart_yaml.name core_chart) (finding_helm_chart dir_path)

  unfoldable pub validate_core_helm_chart_variant_in_dir : String → M (Unit {0})
  validate_core_helm_chart_variant_in_dir dir_path = do
    require_dir dir_path
    require_file (join dir_path "Chart.yaml")
    require_core_chart dir_path
    require_dir (join dir_path "charts")
    require_file (join dir_path "values.yaml")
    require_file (join dir_path "README.md")
    require_dir (join dir_path "charts/crds")
    require_dir (join dir_path "templates")
    pure tt

  unfoldable pub validate_helm_chart_dir : String → M (Unit {0})
  unfolding validate_core_helm_chart_variant_in_dir
  validate_helm_chart_dir core_dir = validate_core_helm_chart_variant_in_dir core_dir

  abbrev pub release_regex : String → String
  release_regex name = str_append "(\\n)?" (str_append name "(\\n)?")

  unfoldable pub validate_helm_release : String → String → M (Unit {0})
  validate_helm_release name namespace = do
    output ← run_helm ("list" ∷ "-n" ∷ namespace ∷ "--deployed" ∷ "--short" ∷ []) helm_list_command
    found ←
        lift (λ env. host.is_match (release_regex name) output.stdout)
          (λ s. regex_compile s (release_regex name))
    ensure found (helm_release name namespace)

  abbrev pub version_regex : String
  version_regex = "^(v3\\.[0-9]+\\.[0-9])"

  unfoldable pub validate_helmv3_in_path : M (Unit {0})
  validate_helmv3_in_path = do
    output ← run_helm ("version" ∷ "--short" ∷ []) helm_version_command
    found ←
        lift (λ env. host.is_match version_regex output.stdout) (λ s. regex_compile s version_regex)
    ensure found (helm_version output.stdout)

  unfoldable pub validate_namespace : String → M (Unit {0})
  validate_namespace ns = do client; lift (λ env. host.get_namespace ns) (λ s. get_namespace s ns)

  unfoldable pub validate_rest_endpoint : String → M (Unit {0})
  validate_rest_endpoint rest_endpoint = do new_with_url rest_endpoint; nodes ← get_nodes; pure tt

  unfoldable pub parse_cli_args : CliArgs → M CliArgs
  parse_cli_args opts = do
    validate_namespace opts.namespace
    validate_rest_endpoint opts.rest_endpoint
    validate_helmv3_in_path
    validate_helm_release opts.release_name opts.namespace
    validate_helm_chart_dir opts.core_chart_dir
    pure opts
