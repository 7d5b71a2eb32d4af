-- ===== src/Upgrade/Helm/Values.antt =====
-- k8s/upgrade/src/bin/upgrade-job/helm/values.rs, and common/file.rs
pub mod Generate
pub mod Tags
use mayastor_extensions.Prelude.{
  ℕ, String, Bool, true, false, not, ◌&&◌, Option, none, some, List, [], ◌∷◌, any, str_eq,
  if◌then◌else◌,
}
use mayastor_extensions.Upgrade.Error.{
  Error, deserialize_promtail_extra_config, list_crds, serialize_promtail_config_client_to_json,
  serialize_promtail_extra_config_to_json, serialize_promtail_init_container_to_json,
  temp_file_creation, write_to_temp_file,
}
use mayastor_extensions.Upgrade.Env.{Call, ListParams}
use mayastor_extensions.Upgrade.Constants.{
  two_dot_five, two_dot_four, two_dot_o_rc_one, two_dot_one, two_dot_six, two_dot_three,
}
use mayastor_extensions.Upgrade.Version.{Semver, Version, ge, lt}
use mayastor_extensions.Upgrade.Values.{CoreValues}
use mayastor_extensions.Upgrade.Job.{
  M, pure, for_each, lift, reads, request, with_rounds, ◌>>=◌, ◌>>◌,
}
use mayastor_extensions.Effect.Paging.{paginate}
use mayastor_extensions.Upgrade.Kube
use mayastor_extensions.Upgrade.Kube.{params}
use mayastor_extensions.Upgrade.Path.{version_of}
use mayastor_extensions.Upgrade.Helm.Yq
use mayastor_extensions.Upgrade.Helm.Yq.{
  append_to_array, append_to_object, bool_text, delete_object, merge_files, set_literal_value,
  yaml_key,
}

-- How many bytes were written is not looked at.
unfoldable pub write_to_tempfile : String → String → M String
write_to_tempfile dir buf = do
  path ← request (λ env t. env.create_tempfile t dir) (Call.create_tempfile dir) temp_file_creation
  request (λ env t. env.write t path buf) (Call.write path buf) (λ s. write_to_temp_file s path)
  pure path

-- `yq.set_literal_value(YamlKey::try_from(key)?, value, file)?`
unfoldable pub set : String → String → String → M (Unit {0})
set file key value = yaml_key key >>= λ k. set_literal_value k value file

-- `yq.delete_object(YamlKey::try_from(key)?, file)?`
unfoldable pub delete : String → String → M (Unit {0})
delete file key = yaml_key key >>= λ k. delete_object k file

unfoldable pub when : Bool → M (Unit {0}) → M (Unit {0})
when b m = if b then m else pure tt

-- The key gets the target's value, if the source still has the default that was to be replaced.
abbrev pub outdated : String → String → String → Bool
outdated default source target = str_eq source default && not (str_eq target default)

unfoldable pub extra_client_configs : String → String → M (Unit {0})
extra_client_configs config file = when (not (str_eq config "")) (do
  value ← lift (λ env. env.yaml_value config) (λ s. deserialize_promtail_extra_config s config)
  json ← lift (λ env. env.value_json value) (λ s. serialize_promtail_extra_config_to_json s value)
  k ← yaml_key ".loki-stack.promtail.config.clients[0]"
  append_to_object k json file)

unfoldable pub loki_address_to_clients : CoreValues → String → M (Unit {0})
unfolding extra_client_configs
loki_address_to_clients source_values file = do
  clients ← yaml_key ".loki-stack.promtail.config.clients"
  delete_object clients file
  client ←
      lift (λ env. env.client_json source_values.loki_stack_promtail_loki_address)
        (λ s.
          serialize_promtail_config_client_to_json s source_values.loki_stack_promtail_loki_address)
  append_to_array clients client file
  extra_client_configs source_values.promtail_extra_client_configs file
  delete file ".loki-stack.promtail.config.snippets.extraClientConfigs"
  delete file ".loki-stack.promtail.config.lokiAddress"

abbrev snapshot_crds : List String
snapshot_crds =
    "volumesnapshotclasses.snapshot.storage.k8s.io"
    ∷ "volumesnapshotcontents.snapshot.storage.k8s.io" ∷ "volumesnapshots.snapshot.storage.k8s.io"
    ∷ []

abbrev jaeger_crds : List String
jaeger_crds = "jaegers.jaegertracing.io" ∷ []

-- At least one of the set is there.
abbrev any_exists : List String → List String → Bool
any_exists crd_set names = any (λ name. any (str_eq name) crd_set) names

unfoldable pub toggle : String → List String → (List String × String) → M (Unit {0})
toggle file names (crd_set, helm_toggle) =
    when (any_exists crd_set names) (set_literal_value helm_toggle (bool_text false) file)

-- A page of a list that the API client was made for once.
unfoldable pub crds_page : Option String → M (List String × Option String)
crds_page token = do
  list ←
      request (λ env t. env.list_crds t (params "" none none token))
        (Call.list_crds (params "" none none token)) list_crds
  pure (list.items, list.continue_)

abbrev in_order : {A : Type 0} → Bool → A → A → List A
in_order first a b = if first then a ∷ b ∷ [] else b ∷ a ∷ []

unfoldable pub safe_crd_install : String → M (Unit {0})
unfolding crds_page toggle
safe_crd_install file = do
  snapshots ← yaml_key ".crds.csi.volumeSnapshots.enabled"
  jaeger ← yaml_key ".crds.jaeger.enabled"
  Kube.client
  names ← with_rounds λ n. paginate n crds_page none []
  first ← reads (λ env. env.snapshots_first)
  for_each (in_order first (snapshot_crds, snapshots) (jaeger_crds, jaeger)) (toggle file names)
