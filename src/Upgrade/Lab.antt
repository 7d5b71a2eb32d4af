-- ===== src/Upgrade/Lab.antt =====
-- A cluster to run the upgrade job on: one storage node, one io-engine Pod of the old revision.
use Prim.Native.Nat.{Ordering, compare}
use mayastor_extensions.Prelude.{
  String, Bool, true, false, Option, none, some, List, [], ◌∷◌, str_eq, if◌then◌else◌,
}
use mayastor_extensions.Upgrade.Models.{CordonDrainState, Pod, Volume, cordonedstate, drainedstate}
use mayastor_extensions.Upgrade.Version.{Version, release}
use mayastor_extensions.Upgrade.Values.{CoreValues}
use mayastor_extensions.Upgrade.Env.{
  Env, ListParams, ObjectList, Reply, Trace, bad, good, delete_node_cordon, delete_pod,
  put_node_cordon, put_node_drain,
}
use mayastor_extensions.Upgrade.DataPlane.{without_hash}

abbrev pub pod : String → Pod
pod name = record {
  name = name;
  spec = some (record { node_name = some "n1" });
  status = some (record { conditions = some ((record { type_ = "Ready"; status = "True" }) ∷ []) });
}

abbrev pub old_pod : Pod
old_pod = pod "io-engine-old"

abbrev pub values : String → CoreValues
values tag = record {
  ha_is_enabled = true;
  partial_rebuild_is_enabled = false;
  image_tag = tag;
  control_plane_repotag = tag;
  data_plane_repotag = tag;
  extensions_repotag = tag;
  io_engine_log_level = tag;
  eventing_enabled = true;
  csi_provisioner_image_tag = tag;
  csi_attacher_image_tag = tag;
  csi_snapshotter_image_tag = tag;
  csi_snapshot_controller_image_tag = tag;
  csi_node_driver_registrar_image_tag = tag;
  csi_resizer_image_tag = tag;
  csi_node_nvme_io_timeout = tag;
  deprecated_node_csi_mount_path = tag;
  loki_stack_loki_image_tag = tag;
  loki_stack_promtail_scrape_configs = tag;
  loki_stack_promtail_config_file = tag;
  loki_stack_promtail_loki_address = tag;
  promtail_extra_client_configs = tag;
  promtail_init_container = "{}" ∷ [];
  promtail_readiness_probe_http_get_path = tag;
  filebeat_image_tag = tag;
  logstash_image_tag = tag;
  grafana_download_dashboards_image_tag = tag;
  grafana_image_tag = tag;
  grafana_sidecar_image_tag = tag;
  localpv_release_version = tag;
  localpv_provisioner_image_tag = tag;
  localpv_helper_image_tag = tag;
  prometheus_alertmanager_image_tag = tag;
  prometheus_node_exporter_image_tag = tag;
  prometheus_pushgateway_image_tag = tag;
  prometheus_server_image_tag = tag;
  deprecated_log_silence_level = tag;
  jaeger_operator_image_tag = tag;
}

-- Versions are compared by their first two numbers here.
abbrev cmp : Version → Version → Ordering
cmp a b = elim (compare a.major b.major) [
  | Ordering.lt ↦ Ordering.lt
  | Ordering.eq ↦ compare a.minor b.minor
  | Ordering.gt ↦ Ordering.gt
]

abbrev parse : String → Reply Version
parse text =
    if str_eq text "2.7.0"
    then good (release 2 7 0)
    else if str_eq text "2.6.0"
    then good (release 2 6 0)
    else if str_eq text "2.5.0"
    then good (release 2 5 0)
    else if str_eq text "2.4.0"
    then good (release 2 4 0)
    else if str_eq text "2.3.0"
    then good (release 2 3 0)
    else if str_eq text "2.1.0"
    then good (release 2 1 0)
    else if str_eq text "2.0.0-rc.1"
    then good (release 2 0 0)
    else bad "not a version"

abbrev pub replaced : Trace → Bool
replaced [] = false
replaced (delete_pod s p n r ∷ t) = true
replaced (c ∷ t) = replaced t

abbrev pub state : Trace → Option CordonDrainState
state [] = none
state (put_node_drain n l r ∷ t) = some (drainedstate [] (l ∷ []))
state (put_node_cordon n l r ∷ t) = some (cordonedstate (l ∷ []))
state (delete_node_cordon n l r ∷ t) = none
state (c ∷ t) = state t

abbrev is_left : Option String → Bool
is_left none = false
is_left (some label) = str_eq label (without_hash "h2")

abbrev page : {A : Type 0} → List A → Reply (ObjectList A)
page l = good (record { items = l; continue_ = none })

abbrev listed : Trace → ListParams → Reply (ObjectList Pod)
listed t p =
    if is_left p.label_selector
    then (if replaced t then page [] else page (old_pod ∷ []))
    else page (pod "ready" ∷ [])

-- The version in a text: of the chart that is installed, or of the one to install.
abbrev pub lab_with : List Volume → List String → Version → Env
lab_with volumes ana_disabled target = record {
  product_name = "mayastor";
  product_train = "OpenEBS";
  api_rest_label = "app=api-rest";
  etcd_label = "app=etcd";
  csi_node_nvme_ana = "openebs.io/csi-node.nvme-ana";
  rounds = 12;
  semver = record { cmp = cmp; to_string = λ v. "2.x" };
  parse_url = λ s. good s;
  rest_configuration = λ s. good tt;
  get_nodes =
      λ t. good ((record { id = "n1"; spec = some (record { cordondrainstate = state t }) }) ∷ []);
  get_node = λ t id. good (record { id = id; spec = some (record { cordondrainstate = state t }) });
  put_node_cordon = λ t id l. good tt;
  delete_node_cordon = λ t id l. good tt;
  put_node_drain = λ t id l. good tt;
  get_volumes = λ t n k. good (record { entries = volumes; next_token = none });
  k8s_client = λ t. good tt;
  list_pods = listed;
  list_nodes_metadata = λ t p. page ana_disabled;
  list_revisions = λ t p. page (
      (record { name = "r1"; revision = 1; labels = ("controller-revision-hash", "h1") ∷ [] })
      ∷ (record { name = "r2"; revision = 2; labels = ("controller-revision-hash", "h2") ∷ [] })
      ∷ []);
  list_crds = λ t p. page ("jaegers.jaegertracing.io" ∷ []);
  delete_pod = λ t s p. good tt;
  get_pod = λ t s p. good (some ((record { kind = "Job"; name = "upgrade" }) ∷ []));
  send = λ t e. good tt;
  helm = λ t args. good (record { success = true; stdout = "out"; stderr = "" });
  yq = λ t args val. good (record { success = true; stdout = "yq 4.1.1"; stderr = "" });
  read_file = λ t path. good path;
  create_tempfile = λ t dir. good "/tmp/values.yaml";
  write = λ t path buf. good 1;
  parse_version = parse;
  parse_chart = λ s. good (record { name = "mayastor"; version = target });
  parse_release_list = λ s. good ((record { name = "m"; chart = "mayastor-2.5.0" }) ∷ []);
  parse_core_values = λ s. good (values s);
  parse_umbrella_values = λ s. good (values s);
  parse_unsupported_versions = good (release 1 0 0 ∷ []);
  note_json = λ n. good n.message;
  client_json = λ s. good s;
  container_json = λ s. good s;
  yaml_value = λ s. good s;
  value_json = λ s. good s;
  display = λ e. "error";
  is_yaml_key = λ s. true;
  is_yq_v4 = λ s. true;
  is_umbrella_chart = λ s. false;
  is_core_chart = λ s. true;
  snapshots_first = true;
}

abbrev pub lab : Env
lab = lab_with [] [] (release 2 7 0)
