-- ===== src/Upgrade/Opts/Tests.antt =====
-- Runs of the validators of opts/validators.rs.
use mayastor_extensions.Prelude.{String, false, true, ◌≡◌, refl, ◌↔◌, [], str_eq, if◌then◌else◌}
use mayastor_extensions.Effect.{good, bad}
use mayastor_extensions.Upgrade.Error.{not_a_file, validate_dir_path}
use mayastor_extensions.Upgrade.Job.{done, failed, ◌>>=◌}
use mayastor_extensions.Upgrade.Kube.{client}
use mayastor_extensions.Upgrade.Rest.{get_nodes, new_with_url}
use mayastor_extensions.Upgrade.Helm.Client.{run_helm}
use mayastor_extensions.Upgrade.Path.{join}
use mayastor_extensions.Upgrade.Product.{CliArgs}
use mayastor_extensions.Upgrade.Lab.{lab}
use mayastor_extensions.Upgrade.Opts.{
  Host, directory, parse_cli_args, regular, require_core_chart, require_dir, require_file,
  validate_helm_chart_dir, validate_helm_release, validate_helmv3_in_path, validate_namespace,
  validate_rest_endpoint,
}
use mayastor_extensions.Upgrade.Opts.Chart.{WellFormed, chart_dir-WellFormed}

-- A chart at /chart; `templates` is what stands at that path.
abbrev host_with : String → Host
host_with templates = record {
  metadata = λ path.
      if str_eq path "/chart/Chart.yaml"
      then good regular
      else if str_eq path "/chart/values.yaml"
      then good regular
      else if str_eq path "/chart/README.md"
      then good regular
      else if str_eq path "/chart/templates"
      then (if str_eq templates "" then bad "no such file" else good directory)
      else good directory;
  is_match = λ expression text. good true;
  get_namespace = λ ns. good tt;
}

abbrev host : Host
host = host_with "templates"

abbrev cli_args : CliArgs
cli_args = record {
  rest_endpoint = "http://rest";
  namespace = "ns";
  release_name = "m";
  core_chart_dir = "/chart";
  skip_data_plane_restart = false;
  skip_upgrade_path_validation = false;
  pod_name = "job";
  helm_args_set = "";
  helm_args_set_file = "";
}

valid_args : (parse_cli_args host cli_args lab []).0 ≡ done cli_args
unfolding parse_cli_args validate_namespace validate_rest_endpoint validate_helmv3_in_path
    validate_helm_release validate_helm_chart_dir require_dir require_file require_core_chart client
    get_nodes new_with_url run_helm ◌>>=◌ join
valid_args = refl

no_templates :
    (validate_helm_chart_dir (host_with "") "/chart" lab []).0
    ≡ failed (validate_dir_path "no such file" "/chart/templates")
unfolding validate_helm_chart_dir require_dir require_file require_core_chart ◌>>=◌ join
no_templates = refl

not_a_chart :
    (validate_helm_chart_dir host "/elsewhere" lab []).0
    ≡ failed (not_a_file "/elsewhere/Chart.yaml")
unfolding validate_helm_chart_dir require_dir require_file ◌>>=◌ join
not_a_chart = refl

chart_dir-WellFormed_example :
    ((validate_helm_chart_dir host "/chart" lab []).0 ≡ done tt) ↔ WellFormed host lab [] "/chart"
chart_dir-WellFormed_example = chart_dir-WellFormed host lab [] "/chart"
