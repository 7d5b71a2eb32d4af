-- ===== src/Upgrade/Error.antt =====
-- The errors of the upgrade job: k8s/upgrade/src/bin/upgrade-job/common/error.rs.
-- A `source` is the text of the third-party error that it wraps, paths, URLs and serialised objects
-- are their text; the fields stand in the order of the enum.
use mayastor_extensions.Prelude.{String, List}

pub data Error : Type 0 where
  rest_url_parse : String → String → Error
  k8s_client_generation : String → Error
  get_namespace : String → String → Error
  rest_client_configuration : String → String → Error
  helm_command : String → String → List String → Error
  regex_compile : String → String → Error
  helm_version : String → Error
  helm_release : String → String → Error
  no_input_helm_chart_dir : String → Error
  job_pod_owner_not_found : String → String → Error
  job_pod_has_too_many_owners : String → String → Error
  job_pod_owner_is_not_job : String → String → Error
  yaml_parse_from_slice : String → String → Error
  yaml_parse_from_file : String → String → Error
  yaml_parse_buffer_for_unsupported_version : String → Error
  determine_chart_variant : String → String → String → Error
  validate_dir_path : String → String → Error
  validate_file_path : String → String → Error
  not_a_directory : String → Error
  not_a_file : String → Error
  reading_file : String → String → Error
  finding_helm_chart : String → Error
  get_pod : String → String → String → Error
  list_pods_with_label_and_field : String → String → String → String → Error
  list_ctrl_revs_with_label_and_field : String → String → String → String → Error
  list_nodes_with_label_and_field : String → String → String → Error
  empty_pod_spec : String → String → Error
  empty_pod_node_name : String → String → Error
  empty_pod_uid : String → String → Error
  storage_node_uncordon : String → String → Error
  pod_delete : String → String → String → Error
  list_storage_nodes : String → Error
  get_storage_node : String → String → Error
  empty_storage_node_spec : String → Error
  list_storage_volumes : String → Error
  drain_storage_node : String → String → Error
  cordon_storage_node : String → String → Error
  yaml_structure : String → Error
  u8_vector_to_string : String → Error
  event_publish : String → Error
  helm_chart_name_split : String → String → Error
  helm_list_command : String → List String → String → Error
  helm_version_command : String → List String → String → Error
  helm_upgrade_command : String → List String → String → Error
  helm_get_values_command : String → List String → String → Error
  not_a_known_helm_chart : String → Error
  event_recorder_options_absent : Error
  pod_uid_is_none : Error
  helm_client_ns : Error
  helm_upgrade_option_release_name_absent : Error
  helm_upgrade_option_namespace_absent : Error
  semver_parse : String → String → Error
  invalid_upgrade_path : Error
  serialize_event_note : String → String → Error
  serialize_promtail_config_client_to_json : String → String → Error
  serialize_promtail_init_container_to_json : String → String → Error
  deserialize_promtail_extra_config : String → String → Error
  serialize_promtail_extra_config_to_json : String → String → Error
  serialize_promtail_extra_client_config_to_json : String → String → Error
  too_many_io_engine_pods : String → Error
  thin_provisioning_options_absent : Error
  event_channel_send : Error
  umbrella_chart_not_upgraded : Error
  core_chart_upgrade_none_chart_dir : Error
  invalid_helm_upgrade : Error
  rollback_forbidden : String → String → Error
  yq_command_exec : String → String → List String → Error
  yq_version_command : String → String → String → Error
  yq_merge_command : String → List String → String → Error
  not_yq_v4 : Error
  temp_file_creation : String → Error
  write_to_temp_file : String → String → Error
  not_a_valid_yaml_key_for_string_value : String → Error
  yq_set_command : String → List String → String → Error
  yq_delete_object_command : String → List String → String → Error
  yq_append_to_array_command : String → List String → String → Error
  yq_append_to_object_command : String → List String → String → Error
  list_crds : String → Error
  partial_rebuild_not_allowed : String → String → String → Error
  controller_revision_list_empty : String → String → String → Error
  controller_revision_doesnt_have_hash_label : String → String → String → Error
