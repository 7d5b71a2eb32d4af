-- ===== src/Upgrade/Values.antt =====
-- The helm values that the upgrade job reads: `CoreValues` of
-- k8s/upgrade/src/bin/upgrade-job/helm/chart.rs, one field for each getter. A container of
-- `promtail_init_container` is its text.
use mayastor_extensions.Prelude.{String, Bool, List}

pub record CoreValues : Type 0 where
  pub ha_is_enabled : Bool
  pub partial_rebuild_is_enabled : Bool
  pub image_tag : String
  pub control_plane_repotag : String
  pub data_plane_repotag : String
  pub extensions_repotag : String
  pub io_engine_log_level : String
  pub eventing_enabled : Bool
  pub csi_provisioner_image_tag : String
  pub csi_attacher_image_tag : String
  pub csi_snapshotter_image_tag : String
  pub csi_snapshot_controller_image_tag : String
  pub csi_node_driver_registrar_image_tag : String
  pub csi_resizer_image_tag : String
  pub csi_node_nvme_io_timeout : String
  pub deprecated_node_csi_mount_path : String
  pub loki_stack_loki_image_tag : String
  pub loki_stack_promtail_scrape_configs : String
  pub loki_stack_promtail_config_file : String
  pub loki_stack_promtail_loki_address : String
  pub promtail_extra_client_configs : String
  pub promtail_init_container : List String
  pub promtail_readiness_probe_http_get_path : String
  pub filebeat_image_tag : String
  pub logstash_image_tag : String
  pub grafana_download_dashboards_image_tag : String
  pub grafana_image_tag : String
  pub grafana_sidecar_image_tag : String
  pub localpv_release_version : String
  pub localpv_provisioner_image_tag : String
  pub localpv_helper_image_tag : String
  pub prometheus_alertmanager_image_tag : String
  pub prometheus_node_exporter_image_tag : String
  pub prometheus_pushgateway_image_tag : String
  pub prometheus_server_image_tag : String
  pub deprecated_log_silence_level : String
  pub jaeger_operator_image_tag : String
