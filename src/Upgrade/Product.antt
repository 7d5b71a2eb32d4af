-- ===== src/Upgrade/Product.antt =====
-- k8s/upgrade/src/bin/upgrade-job/upgrade.rs: the whole upgrade.
pub mod Kinds
pub mod Listing
pub mod Host
pub mod Edits
pub mod Build
pub mod Cluster
pub mod Phases
pub mod ControlPlane
pub mod Announced
pub mod Failures
pub mod Run
use mayastor_extensions.Prelude.{
  String, Bool, true, false, ◌&&◌, Option, none, some, str_append, if◌then◌else◌,
}
use mayastor_extensions.Upgrade.Error.{Error, partial_rebuild_not_allowed}
use mayastor_extensions.Upgrade.Env.{Env, Trace}
use mayastor_extensions.Upgrade.Constants.{
  controller_revision_hash_label_key, core_chart_name, io_engine_label, partial_rebuild_lower,
  partial_rebuild_upper,
}
use mayastor_extensions.Upgrade.Version.{Semver, Version, ge, le}
use mayastor_extensions.Upgrade.Values.{CoreValues}
use mayastor_extensions.Upgrade.Job.{
  Outcome, done, failed, pending, M, pure, fail, stuck, reads, ◌>>=◌, ◌>>◌,
}
use mayastor_extensions.Upgrade.Kube.{latest_controller_revision_hash, list_pods}
use mayastor_extensions.Upgrade.Events
use mayastor_extensions.Upgrade.Events.{
  EventAction, EventRecorder, successful, upgraded_cp, upgraded_dp, upgrading_cp, upgrading_dp,
  publish_normal, publish_unrecoverable, set_versions,
}
use mayastor_extensions.Upgrade.Helm.Upgrader
use mayastor_extensions.Upgrade.Helm.Upgrader.{
  HelmUpgrader, dry_run, runner, source_version, target_version,
}
use mayastor_extensions.Upgrade.DataPlane.{upgrade_data_plane, without_hash}

-- opts.rs
pub record CliArgs : Type 0 where
  pub rest_endpoint : String
  pub namespace : String
  pub release_name : String
  pub core_chart_dir : String
  pub skip_data_plane_restart : Bool
  pub skip_upgrade_path_validation : Bool
  pub pod_name : String
  pub helm_args_set : String
  pub helm_args_set_file : String

abbrev pub partial_rebuild_disable_required : Semver → Version → Bool
partial_rebuild_disable_required semver source =
    ge semver source partial_rebuild_lower && le semver source partial_rebuild_upper

unfoldable pub partial_rebuild_check : Version → Bool → M (Unit {0})
partial_rebuild_check source partial_rebuild_is_enabled = do
  semver ← reads (λ env. env.semver)
  chart ← reads core_chart_name
  if partial_rebuild_disable_required semver source && partial_rebuild_is_enabled
      then fail (
          partial_rebuild_not_allowed chart (semver.to_string partial_rebuild_lower)
            (semver.to_string partial_rebuild_upper))
      else pure tt

-- `Err(error) => { event.publish_unrecoverable(&error, ..).await; return Err(error); }`
after_attempt : {A : Type 0} → EventRecorder → Bool → Outcome A → M A
after_attempt event validation (done a) = pure a
after_attempt event validation (failed e) = publish_unrecoverable event e validation >> fail e
after_attempt event validation pending = stuck

unfoldable pub or_publish : {A : Type 0} → EventRecorder → Bool → M A → M A
unfolding after_attempt
or_publish event validation m env t =
    let (r, t') = m env t in after_attempt event validation r env t'

-- `publish_normal(format!("<before> <product train><after>"), action)`
unfoldable pub announce : EventRecorder → String → String → EventAction → M (Unit {0})
announce event before after action = do
  train ← reads (λ env. env.product_train)
  publish_normal event (str_append before (str_append train after)) action

unfoldable pub restart_data_plane : CliArgs → EventRecorder → Version → CoreValues → M (Unit {0})
restart_data_plane opts event source final_values = do
  partial_rebuild_check source final_values.partial_rebuild_is_enabled
  hash ←
      latest_controller_revision_hash opts.namespace (some io_engine_label) none
        controller_revision_hash_label_key
  pods ← list_pods opts.namespace (some (without_hash hash)) none
  announce event "Upgrading " " data-plane" upgrading_dp
  or_publish event false (
      upgrade_data_plane opts.namespace opts.rest_endpoint hash final_values.ha_is_enabled
        (without_hash hash) pods)
  announce event "Upgraded " " data-plane" upgraded_dp

unfoldable pub upgrade_with : CliArgs → EventRecorder → HelmUpgrader → M (Unit {0})
upgrade_with opts event upgrader = do
  or_publish event true (dry_run upgrader)
  announce event "Starting " " upgrade..." upgrading_cp
  announce event "Upgrading " " control-plane" upgrading_cp
  final_values ← or_publish event false (runner upgrader)
  announce event "Upgraded " " control-plane" upgraded_cp
  if opts.skip_data_plane_restart
      then pure tt
      else restart_data_plane opts event (source_version upgrader) final_values
  announce event "Successfully upgraded " "" successful

unfoldable pub upgrade_product : CliArgs → EventRecorder → M (Unit {0})
upgrade_product opts event = do
  upgrader ← Upgrader.build (record {
    release_name = some opts.release_name;
    namespace = some opts.namespace;
    core_chart_dir = some opts.core_chart_dir;
    skip_upgrade_path_validation = opts.skip_upgrade_path_validation;
    helm_args_set = some opts.helm_args_set;
    helm_args_set_file = some opts.helm_args_set_file;
  })
  semver ← reads (λ env. env.semver)
  upgrade_with opts
      (set_versions event (semver.to_string (source_version upgrader))
        (semver.to_string (target_version upgrader)))
      upgrader

-- The worker's shutdown, which waits for the events to be sent, returns nothing.
unfoldable pub upgrade : CliArgs → M (Unit {0})
upgrade opts = do
  event ← Events.build (record {
    pod_name = some opts.pod_name;
    namespace = some opts.namespace;
    source_version = none;
    target_version = none;
  })
  upgrade_product opts event
