-- ===== src/Upgrade/Helm/Values/Generate.antt =====
-- `generate_values_yaml_file` of k8s/upgrade/src/bin/upgrade-job/helm/values.rs: the values of the
-- installed release, merged over the target chart's, and then edited key by key.
use mayastor_extensions.Prelude.{String, Bool, not, ◌&&◌, List, [], ◌∷◌, str_append, str_eq}
use mayastor_extensions.Upgrade.Error.{serialize_promtail_init_container_to_json}
use mayastor_extensions.Upgrade.Constants.{
  two_dot_five, two_dot_four, two_dot_o_rc_one, two_dot_one, two_dot_six, two_dot_three,
}
use mayastor_extensions.Upgrade.Version.{Semver, Version, ge, lt}
use mayastor_extensions.Upgrade.Values.{CoreValues}
use mayastor_extensions.Upgrade.Job.{M, pure, for_each, lift, reads, ◌>>=◌, ◌>>◌}
use mayastor_extensions.Upgrade.Path.{version_of}
use mayastor_extensions.Upgrade.Helm.Yq
use mayastor_extensions.Upgrade.Helm.Yq.{append_to_object, bool_text, merge_files, yaml_key}
use mayastor_extensions.Upgrade.Helm.Values.{
  delete, loki_address_to_clients, outdated, safe_crd_install, set, when, write_to_tempfile,
}

abbrev concat : List String → String
concat [] = ""
concat (line ∷ lines) = str_append line (concat lines)

-- The scrape configs that are replaced.
abbrev scrape_configs_to_replace : String
scrape_configs_to_replace = concat (
    "- job_name: {{ .Release.Name }}-pods-name\n" ∷ "  pipeline_stages:\n" ∷ "    - docker: {}\n"
    ∷ "  kubernetes_sd_configs:\n" ∷ "  - role: pod\n" ∷ "  relabel_configs:\n"
    ∷ "  - source_labels:\n" ∷ "    - __meta_kubernetes_pod_node_name\n"
    ∷ "    target_label: hostname\n" ∷ "    action: replace\n" ∷ "  - action: labelmap\n"
    ∷ "    regex: __meta_kubernetes_pod_label_(.+)\n" ∷ "  - action: keep\n"
    ∷ "    source_labels:\n" ∷ "    - __meta_kubernetes_pod_label_openebs_io_logging\n"
    ∷ "    regex: true\n" ∷ "    target_label: {{ .Release.Name }}_component\n"
    ∷ "  - action: replace\n" ∷ "    replacement: $1\n" ∷ "    separator: /\n"
    ∷ "    source_labels:\n" ∷ "    - __meta_kubernetes_namespace\n" ∷ "    target_label: job\n"
    ∷ "  - action: replace\n" ∷ "    source_labels:\n" ∷ "    - __meta_kubernetes_pod_name\n"
    ∷ "    target_label: pod\n" ∷ "  - action: replace\n" ∷ "    source_labels:\n"
    ∷ "    - __meta_kubernetes_pod_container_name\n" ∷ "    target_label: container\n"
    ∷ "  - replacement: /var/log/pods/*$1/*.log\n" ∷ "    separator: /\n" ∷ "    source_labels:\n"
    ∷ "    - __meta_kubernetes_pod_uid\n" ∷ "    - __meta_kubernetes_pod_container_name\n"
    ∷ "    target_label: __path__\n" ∷ [])

-- `source.ge(&lower) && source.lt(&upper)`
abbrev within : Semver → Version → Version → Version → Bool
within semver lower upper v = ge semver v lower && lt semver v upper

-- Special case for 2.0.x.
unfoldable pub set_log_level : String → CoreValues → CoreValues → M (Unit {0})
set_log_level file source target =
    when (outdated "info,io_engine=info" source.io_engine_log_level target.io_engine_log_level)
      (set file ".io_engine.logLevel" target.io_engine_log_level)

-- Special case for targets from 2.1.x on.
unfoldable pub set_repo_tags : String → CoreValues → M (Unit {0})
set_repo_tags file target = do
  set file ".image.repoTags.controlPlane" target.control_plane_repotag
  set file ".image.repoTags.dataPlane" target.data_plane_repotag
  set file ".image.repoTags.extensions" target.extensions_repotag

-- Special case for 2.3.x.
unfoldable pub set_eventing : String → CoreValues → CoreValues → M (Unit {0})
set_eventing file source target =
    when (not (str_eq (bool_text source.eventing_enabled) (bool_text target.eventing_enabled)))
      (set file ".eventing.enabled" (bool_text target.eventing_enabled))

-- Special cases for sources before 2.5.
unfoldable pub set_scrape_configs_and_io_timeout : String → CoreValues → CoreValues → M (Unit {0})
set_scrape_configs_and_io_timeout file source target = do
  when
      (outdated scrape_configs_to_replace source.loki_stack_promtail_scrape_configs
        target.loki_stack_promtail_scrape_configs)
      (set file ".loki-stack.promtail.config.snippets.scrapeConfigs"
        target.loki_stack_promtail_scrape_configs)
  when (outdated "30" source.csi_node_nvme_io_timeout target.csi_node_nvme_io_timeout)
      (set file ".csi.node.nvme.io_timeout" target.csi_node_nvme_io_timeout)

unfoldable pub set_localpv : String → CoreValues → CoreValues → M (Unit {0})
set_localpv file source target =
    when (outdated "3.4.0" source.localpv_release_version target.localpv_release_version) (do
      set file ".localpv-provisioner.release.version" target.localpv_release_version
      set file ".localpv-provisioner.localpv.image.tag" target.localpv_provisioner_image_tag
      set file ".localpv-provisioner.helperPod.image.tag" target.localpv_helper_image_tag)

unfoldable pub set_loki_stack_images : String → CoreValues → M (Unit {0})
set_loki_stack_images file target = do
  set file ".loki-stack.loki.image.tag" target.loki_stack_loki_image_tag
  set file ".loki-stack.filebeat.imageTag" target.filebeat_image_tag
  set file ".loki-stack.logstash.imageTag" target.logstash_image_tag
  set file ".loki-stack.grafana.downloadDashboardsImage.tag"
      target.grafana_download_dashboards_image_tag
  set file ".loki-stack.grafana.image.tag" target.grafana_image_tag
  set file ".loki-stack.grafana.sidecar.image.tag" target.grafana_sidecar_image_tag
  set file ".loki-stack.prometheus.alertmanager.image.tag" target.prometheus_alertmanager_image_tag
  set file ".loki-stack.prometheus.nodeExporter.image.tag" target.prometheus_node_exporter_image_tag
  set file ".loki-stack.prometheus.pushgateway.image.tag" target.prometheus_pushgateway_image_tag
  set file ".loki-stack.prometheus.server.image.tag" target.prometheus_server_image_tag

-- The promtail chart's keys that changed.
unfoldable pub set_promtail : String → CoreValues → CoreValues → M (Unit {0})
set_promtail file source target = do
  delete file ".loki-stack.loki.config.ingester.lifecycler.ring.kvstore"
  delete file ".loki-stack.promtail.config.snippets.extraClientConfigs"
  delete file ".loki-stack.promtail.initContainer"
  loki_address_to_clients source file
  set file ".loki-stack.promtail.config.file" target.loki_stack_promtail_config_file
  for_each target.promtail_init_container (λ container.
      lift (λ env. env.container_json container)
        (λ s. serialize_promtail_init_container_to_json s container)
      >>= λ json.
          yaml_key ".loki-stack.promtail.initContainer" >>= λ k. append_to_object k json file)
  set file ".loki-stack.promtail.readinessProbe.httpGet.path"
      target.promtail_readiness_probe_http_get_path

-- Keys of our own chart that were renamed, and the jaeger-operator's tag.
unfoldable pub set_renamed_keys : String → CoreValues → M (Unit {0})
set_renamed_keys file source = do
  set file ".base.logging.silenceLevel" source.deprecated_log_silence_level
  delete file ".base.logSilenceLevel"
  set file ".csi.node.pluginMountPath" source.deprecated_node_csi_mount_path
  delete file ".csi.node.pluginMounthPath"
  set file ".jaeger-operator.image.tag" source.jaeger_operator_image_tag

-- Special cases for sources before 2.6.
unfoldable pub set_before_two_dot_six : String → CoreValues → CoreValues → M (Unit {0})
set_before_two_dot_six file source target = do
  set_localpv file source target
  set_loki_stack_images file target
  set_promtail file source target
  set_renamed_keys file source

-- What is always set.
unfoldable pub set_image_tags : String → CoreValues → M (Unit {0})
set_image_tags file target = do
  set file ".image.tag" target.image_tag
  set file ".csi.image.provisionerTag" target.csi_provisioner_image_tag
  set file ".csi.image.attacherTag" target.csi_attacher_image_tag
  set file ".csi.image.snapshotterTag" target.csi_snapshotter_image_tag
  set file ".csi.image.snapshotControllerTag" target.csi_snapshot_controller_image_tag
  set file ".csi.image.registrarTag" target.csi_node_driver_registrar_image_tag
  set file ".csi.image.resizerTag" target.csi_resizer_image_tag

-- The cases in the order of the source; each parses the versions that it first needs.
unfoldable pub edit_values :
    Semver → Version → Version → CoreValues → CoreValues → String → M (Unit {0})
edit_values semver source_version target_version source target file = do
  o_rc_one ← version_of two_dot_o_rc_one
  one ← version_of two_dot_one
  when (within semver o_rc_one one source_version) (set_log_level file source target)
  when (ge semver target_version one) (set_repo_tags file target)
  three ← version_of two_dot_three
  four ← version_of two_dot_four
  when (within semver three four source_version) (set_eventing file source target)
  five ← version_of two_dot_five
  when (within semver o_rc_one five source_version)
      (set_scrape_configs_and_io_timeout file source target)
  six ← version_of two_dot_six
  when (within semver o_rc_one six source_version) (set_before_two_dot_six file source target)
  set_image_tags file target

unfoldable pub generate_values_yaml_file :
    Version → Version → CoreValues → CoreValues → String → String → String → M String
generate_values_yaml_file source_version target_version source target source_values_buf
      target_values_filepath chart_dir =
    do
      source_values_file ← write_to_tempfile chart_dir source_values_buf
      Yq.new
      merged ← merge_files source_values_file target_values_filepath
      file ← write_to_tempfile chart_dir merged
      semver ← reads (λ env. env.semver)
      edit_values semver source_version target_version source target file
      safe_crd_install file
      pure file
