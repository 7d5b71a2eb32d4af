-- ===== src/Plugin/Error.antt =====
-- `Error` of k8s/upgrade/src/plugin/error.rs. A `source` is the text of the error below.
use mayastor_extensions.Prelude.{String}

pub data Error : Type 0 where
  upgrade_event_not_present no_deployment_present message_in_event_not_present : Error
  nodes_in_cordoned_state single_replica_volume_err volume_rebuild_in_progress : Error
  k8s_client : String → Error
  event_serde_deserialization : String → String → Error
  service_account_create service_account_delete : String → String → Error
  cluster_role_create cluster_role_delete : String → String → Error
  cluster_role_binding_delete cluster_role_binding_create : String → String → Error
  upgrade_config_map_create upgrade_job_create upgrade_job_delete : String → String → Error
  upgrade_config_map_delete : String → String → Error
  reference_deployment_invalid_image reference_deployment_no_image : Error
  reference_deployment_no_spec reference_deployment_no_pod_template_spec : Error
  reference_deployment_no_containers : Error
  node_spec_not_present : String → Error
  pod_name_not_present : Error
  upgrade_job_status_not_present : String → Error
  upgrade_job_not_present : String → String → Error
  list_pods_with_label list_deploymants_with_label : String → String → String → Error
  list_events_with_field_selector delete_events_with_field_selector : String → String → Error
  list_pvc list_volumes : String → Error
  get_upgrade_job get_upgrade_config_map get_service_account : String → String → Error
  get_cluster_role get_cluster_role_binding : String → String → Error
  k8s_client_generation rest_client_configuration list_storage_nodes : String → Error
  openapi_client_configuration : String → Error
  opening_file yaml_parse_from_file read_from_file : String → String → Error
  yaml_parse_buffer_for_unsupported_version : String → Error
  semver_parse : String → String → Error
  source_target_version_same not_a_valid_source_for_upgrade invalid_upgrade_path : Error
  invalid_set_file_arguments : String → Error
  specified_key_not_present : Error
