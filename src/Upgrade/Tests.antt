-- ===== src/Upgrade/Tests.antt =====
-- Runs of the upgrade job on concrete clusters.
mod Parts
use mayastor_extensions.Prelude.{
  ℕ, String, Bool, true, false, ◌≡◌, refl, ◌⊎◌, Option, none, some, List, [], ◌∷◌,
}
use mayastor_extensions.Upgrade.Env.{Env, bad, good, pods_listed, send, warning}
use mayastor_extensions.Upgrade.Env as Job
use mayastor_extensions.Upgrade.Values.{CoreValues}
use mayastor_extensions.Upgrade.Job.{
  done, failed, pending, ◌>>=◌, for_each, sleep_until, pause, with_rounds,
}
use mayastor_extensions.Effect.Paging.{paginate}
use mayastor_extensions.Upgrade.Rest.{
  delete_node_cordon, get_node, get_nodes, get_volumes, new_with_url, put_node_cordon,
  put_node_drain,
}
use mayastor_extensions.Upgrade.Kube.{client, list_nodes_metadata, list_pods}
use mayastor_extensions.Upgrade.Pods.{all_pods_are_ready}
use mayastor_extensions.Upgrade.Cordon.{
  drain_loop, node_state, uncordon_loop, cordon_storage_node, drain_storage_node,
  uncordon_drained_storage_node, uncordon_storage_node,
}
use mayastor_extensions.Upgrade.Rebuild.{
  list_all_volumes, list_unhealthy_volumes, rebuild_result, rebuild_rounds, wait_for_rebuild,
}
use mayastor_extensions.Upgrade.DataPlane.{
  control_plane_is_running, data_plane_pod_is_running, delete_data_plane_pod, drain_if,
  frontend_nodes_ana_check, is_node_drainable, restart_on, upgrade_all, upgrade_data_plane,
  upgrade_pod, upgrade_rounds, verify_control_plane_is_running, verify_data_plane_pod_is_running,
  with_hash, without_hash,
}
use mayastor_extensions.Upgrade.DataPlane.Watch.{Guarded, watch}
use mayastor_extensions.Upgrade.DataPlane.Safety.{
  upgrade_data_plane-Guarded, upgrade_data_plane-Settled,
}
use mayastor_extensions.Upgrade.DataPlane.Finish.{latest_call, upgrade_data_plane-none_left}
use mayastor_extensions.Upgrade.Kube.{latest_controller_revision_hash, list_controller_revisions}
use mayastor_extensions.Upgrade.Events
use mayastor_extensions.Upgrade.Events.{EventRecorder, event_of, publish_typed}
use mayastor_extensions.Upgrade.Path.{
  is_valid_for_core_chart, join, split_once, version_from_chart_yaml_file,
  version_from_release_chart, version_of,
}
use mayastor_extensions.Upgrade.Helm.Client
use mayastor_extensions.Upgrade.Helm.Client.{
  get_values_as_yaml, list_as_yaml, release_info, run_helm,
}
use mayastor_extensions.Upgrade.Helm.Yq
use mayastor_extensions.Upgrade.Helm.Yq.{
  append_to_array, append_to_object, command_output, delete_object, edit, merge_files,
  set_literal_value, yaml_key,
}
use mayastor_extensions.Upgrade.Helm.Values.{
  delete, loki_address_to_clients, safe_crd_install, set, when, write_to_tempfile,
}
use mayastor_extensions.Upgrade.Helm.Values.Generate.{
  edit_values, generate_values_yaml_file, set_before_two_dot_six, set_eventing, set_image_tags,
  set_localpv, set_log_level, set_loki_stack_images, set_promtail, set_renamed_keys, set_repo_tags,
  set_scrape_configs_and_io_timeout,
}
use mayastor_extensions.Upgrade.Helm.Upgrader
use mayastor_extensions.Upgrade.Helm.Upgrader.{build_core, build_variant, dry_run, gather, runner}
use mayastor_extensions.Upgrade.Product.{
  CliArgs, announce, or_publish, partial_rebuild_check, restart_data_plane, upgrade,
  upgrade_product, upgrade_with,
}
use mayastor_extensions.Upgrade.Product.Phases.{Phased, all_done, sent}
use mayastor_extensions.Upgrade.Product.Failures.{
  Within, at_dry_run, restart_data_plane-Within, upgrade_with-failed,
}
use mayastor_extensions.Upgrade.Product.Run.{build-Validated, upgrade-Announced, upgrade-Phased}
use mayastor_extensions.Upgrade.Product.Build.{Sound}
use mayastor_extensions.Upgrade.Helm.Upgrader.{
  HelmUpgrader, HelmUpgraderBuilder, core, upgrade_extra_args,
}
use mayastor_extensions.Upgrade.Error.{helm_command, partial_rebuild_not_allowed}
use mayastor_extensions.Upgrade.Version.{release}
use mayastor_extensions.Upgrade.Lab.{lab, lab_with, old_pod, values}

-- A run that goes well, with a drain.
lab_run :
    (upgrade_data_plane "ns" "http://rest" "h2" true (without_hash "h2") (old_pod ∷ []) lab []).0
    ≡ done tt
unfolding upgrade_data_plane upgrade_all new_with_url get_nodes for_each
    uncordon_drained_storage_node get_node delete_node_cordon upgrade_rounds list_pods paginate
    with_rounds pause upgrade_pod verify_control_plane_is_running sleep_until all_pods_are_ready
    restart_on wait_for_rebuild rebuild_result rebuild_rounds list_unhealthy_volumes get_volumes
    is_node_drainable list_nodes_metadata drain_if drain_storage_node put_node_drain
    delete_data_plane_pod client verify_data_plane_pod_is_running ◌>>=◌ uncordon_loop node_state
    control_plane_is_running drain_loop data_plane_pod_is_running
lab_run = refl

upgrade_data_plane-Guarded_example :
    Guarded lab "h2"
      (upgrade_data_plane "ns" "http://rest" "h2" true (without_hash "h2") (old_pod ∷ []) lab []).1
upgrade_data_plane-Guarded_example =
    upgrade_data_plane-Guarded lab "ns" "http://rest" "h2" true (without_hash "h2") (old_pod ∷ [])

upgrade_data_plane-Settled_example :
    let w =
      watch lab "h2"
        (upgrade_data_plane "ns" "http://rest" "h2" true
          (without_hash "h2")
          (old_pod ∷ [])
          lab
          []).1 in
    (w.restarting ≡ none) × (w.drained ≡ [])
upgrade_data_plane-Settled_example =
    upgrade_data_plane-Settled lab "ns" "http://rest" "h2" true (without_hash "h2") (old_pod ∷ [])
      lab_run

upgrade_data_plane-none_left_example :
    latest_call
      (upgrade_data_plane "ns" "http://rest" "h2" true (without_hash "h2") (old_pod ∷ []) lab []).1
    ≡ some (pods_listed (some (without_hash "h2")) none [])
upgrade_data_plane-none_left_example =
    upgrade_data_plane-none_left lab "ns" "http://rest" "h2" true (without_hash "h2") old_pod []
      lab_run

abbrev opts : Bool → CliArgs
opts skip_data_plane_restart = record {
  rest_endpoint = "http://rest";
  namespace = "ns";
  release_name = "m";
  core_chart_dir = "/chart";
  skip_data_plane_restart = skip_data_plane_restart;
  skip_upgrade_path_validation = false;
  pod_name = "job";
  helm_args_set = "";
  helm_args_set_file = "";
}

product_run : (upgrade (opts false) lab []).0 ≡ done tt
unfolding upgrade_data_plane upgrade_all new_with_url get_nodes for_each
    uncordon_drained_storage_node get_node delete_node_cordon upgrade_rounds list_pods paginate
    with_rounds pause upgrade_pod verify_control_plane_is_running sleep_until all_pods_are_ready
    restart_on wait_for_rebuild rebuild_result rebuild_rounds list_unhealthy_volumes get_volumes
    is_node_drainable list_nodes_metadata drain_if drain_storage_node put_node_drain
    delete_data_plane_pod client verify_data_plane_pod_is_running ◌>>=◌ uncordon_loop node_state
    control_plane_is_running drain_loop data_plane_pod_is_running upgrade upgrade_product
    upgrade_with restart_data_plane or_publish partial_rebuild_check announce dry_run runner
    Events.build publish_typed latest_controller_revision_hash list_controller_revisions
    Upgrader.build gather release_info list_as_yaml get_values_as_yaml version_from_release_chart
    version_from_chart_yaml_file is_valid_for_core_chart join split_once build_variant build_core
    generate_values_yaml_file edit_values set_image_tags set_before_two_dot_six set_renamed_keys
    set_promtail set_loki_stack_images set_localpv set_scrape_configs_and_io_timeout set_eventing
    set_repo_tags set_log_level safe_crd_install loki_address_to_clients when delete set
    write_to_tempfile delete_object append_to_object append_to_array set_literal_value edit
    merge_files Yq.new yaml_key command_output version_of Client.upgrade
product_run = refl

upgrade-Phased_example : Phased (upgrade (opts false) lab []).1
upgrade-Phased_example = upgrade-Phased lab (opts false)

upgrade-Announced_example : sent (upgrade (opts false) lab []).1 ≡ all_done false
upgrade-Announced_example = upgrade-Announced lab (opts false) product_run

abbrev builder : HelmUpgraderBuilder
builder = record {
  release_name = some "m";
  namespace = some "ns";
  core_chart_dir = some "/chart";
  skip_upgrade_path_validation = false;
  helm_args_set = some "a=1";
  helm_args_set_file = some "k=/file";
}

abbrev built : HelmUpgrader
built = core (record {
  already_upgraded = false;
  chart_dir = "/chart";
  release_name = "m";
  client = record { namespace = "ns" };
  helm_upgrade_extra_args = upgrade_extra_args "/tmp/values.yaml" "a=1" "k=/file";
  source_version = release 2 5 0;
  target_version = release 2 7 0;
  source_values = values "out";
})

build_run : (Upgrader.build builder lab []).0 ≡ done built
unfolding Upgrader.build gather release_info list_as_yaml get_values_as_yaml
    version_from_release_chart version_from_chart_yaml_file is_valid_for_core_chart join split_once
    build_variant build_core generate_values_yaml_file edit_values set_image_tags
    set_before_two_dot_six set_renamed_keys set_promtail set_loki_stack_images set_localpv
    set_scrape_configs_and_io_timeout set_eventing set_repo_tags set_log_level safe_crd_install
    loki_address_to_clients when delete set write_to_tempfile delete_object append_to_object
    append_to_array set_literal_value edit merge_files Yq.new yaml_key command_output version_of
    ◌>>=◌ for_each paginate with_rounds pause client
build_run = refl

build-Validated_example : Sound lab builder built
build-Validated_example = build-Validated lab builder built build_run

abbrev recorder : EventRecorder
recorder = record { source_version = "2.5"; target_version = "2.7" }

abbrev with_rebuild : CoreValues
with_rebuild = record (values "v") { partial_rebuild_is_enabled = true }

restart_data_plane-Within_example :
    ((Within lab (release 2 5 0) × (true ≡ true))
      × (restart_data_plane (opts false) recorder (release 2 5 0) with_rebuild lab []
          ≡ (failed (partial_rebuild_not_allowed "mayastor" "2.x" "2.x"), [])))
    ⊎ ((¬ (Within lab (release 2 5 0) × (true ≡ true)))
        × (partial_rebuild_check (release 2 5 0) true lab [] ≡ (done tt, [])))
restart_data_plane-Within_example =
    restart_data_plane-Within lab (opts false) recorder (release 2 5 0) with_rebuild []

-- helm cannot be run.
abbrev no_helm : Env
no_helm = record lab { helm = λ t args. bad "no helm" }

abbrev dry_args : List String
dry_args =
    "upgrade" ∷ "m" ∷ "/chart" ∷ "-n" ∷ "ns" ∷ "--timeout" ∷ "15m" ∷ "-f" ∷ "/tmp/values.yaml"
    ∷ "--set" ∷ "a=1" ∷ "--set-file" ∷ "k=/file" ∷ "--atomic" ∷ "--dry-run" ∷ []

dry_run_fails :
    dry_run built no_helm []
    ≡ (failed (helm_command "no helm" "helm" dry_args), Job.helm dry_args (bad "no helm") ∷ [])
unfolding dry_run Client.upgrade run_helm ◌>>=◌
dry_run_fails = refl

upgrade_with-failed_example : upgrade_with (opts false) recorder built no_helm [] ≡ (
  failed (helm_command "no helm" "helm" dry_args),
  send (event_of no_helm warning "Failed to upgrade: error" "Validation Failed") (good tt)
      ∷ Job.helm dry_args (bad "no helm")
      ∷ [],
)
upgrade_with-failed_example =
    upgrade_with-failed no_helm (opts false) recorder built (at_dry_run dry_run_fails) refl
