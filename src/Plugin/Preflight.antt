-- ===== src/Plugin/Preflight.antt =====
-- The checks before an upgrade: k8s/upgrade/src/plugin/preflight_validations.rs, and
-- `get_pvc_from_uuid` of plugin/upgrade.rs.
pub mod Own
pub mod Path
pub mod Listed
pub mod Storage
pub mod Nodes
use mayastor_extensions.Prelude.{
  ℕ, zero, suc, ℤ, pos, String, Bool, true, false, not, ◌&&◌, Option, none, some, List, [], ◌∷◌,
  ◌++◌, ◌==◌, any, keep, map, str_append, str_eq, if◌then◌else◌,
}
use mayastor_extensions.Effect.Paging.{paginate}
use mayastor_extensions.Upgrade.Version.{Version, contains_version, lt}
use mayastor_extensions.Upgrade.Models.{CordonDrainState, Node, NodeSpec, cordonedstate}
use mayastor_extensions.Plugin.Error
use mayastor_extensions.Plugin.Error.{
  invalid_upgrade_path, k8s_client, list_storage_nodes, list_volumes, node_spec_not_present,
  nodes_in_cordoned_state, not_a_valid_source_for_upgrade, openapi_client_configuration,
  semver_parse, single_replica_volume_err, volume_rebuild_in_progress,
  yaml_parse_buffer_for_unsupported_version,
}
use mayastor_extensions.Plugin.Env.{
  Call, Env, PersistentVolumeClaim, Prompt, Reply, Volume, Volumes, bad, good,
}
use mayastor_extensions.Plugin.Constants.{image_version_tag, single_replica_volume}
use mayastor_extensions.Plugin.Text.{strip_v_prefix}
use mayastor_extensions.Plugin.Objects.{UpgradeArgs, join}
use mayastor_extensions.Plugin.Deployment.{get_source_version}
use mayastor_extensions.Plugin.Task.{
  M, client, error, fail, info, lift, ok_or, pure, reads, request, stuck, ◌>>=◌, ◌>>◌,
}

unfoldable pub with_rounds : {A : Type 0} → (ℕ → M A) → M A
with_rounds f env t = f env.rounds env t

-- `matches!(node_spec.cordondrainstate, Some(CordonDrainState::cordonedstate(_)))`
abbrev pub is_cordoned : Option CordonDrainState → Bool
is_cordoned (some (cordonedstate labels)) = true
is_cordoned _ = false

-- `for node in nodelist`
unfoldable pub cordoned_loop : List Node → List String → M (List String)
cordoned_loop [] cordoned_nodes_list = pure cordoned_nodes_list
cordoned_loop (node ∷ nodes) cordoned_nodes_list = do
  node_spec ← ok_or node.spec (node_spec_not_present node.id)
  cordoned_loop nodes (
      if is_cordoned node_spec.cordondrainstate
      then cordoned_nodes_list ++ (node.id ∷ [])
      else cordoned_nodes_list)

unfoldable pub refuse_cordoned : List String → M (Unit {0})
refuse_cordoned [] = pure tt
refuse_cordoned (node ∷ nodes) = do
  error Prompt.cordoned_node_warning (join "\n" (node ∷ nodes))
  fail nodes_in_cordoned_state

unfoldable pub already_cordoned_nodes_validation : M (Unit {0})
already_cordoned_nodes_validation = do
  nodelist ← request (λ env t. env.get_nodes t) Call.get_nodes list_storage_nodes
  cordoned_nodes_list ← cordoned_loop nodelist []
  refuse_cordoned cordoned_nodes_list

abbrev pub max_entries : ℕ
max_entries = 200

-- The volumes of a page, and the next token.
unfoldable pub volumes_page : Option ℤ → M (List Volume × Option ℤ)
volumes_page token = do
  v ←
      request (λ env t. env.get_volumes t max_entries token) (Call.get_volumes max_entries token)
        list_volumes
  pure (v.entries, v.next_token)

abbrev pub has_one_replica : Volume → Bool
has_one_replica volume = volume.num_replicas == single_replica_volume

-- `filter(..).map(..).collect()`
abbrev pub single_rep_vol_ids : List Volume → List String
single_rep_vol_ids entries = map (λ volume. volume.uuid) (keep has_one_replica entries)

unfoldable pub single_replica_page : Option ℤ → M (List String × Option ℤ)
single_replica_page token = do page ← volumes_page token; pure (single_rep_vol_ids page.0, page.1)

abbrev claim_name : List String → Option String → Option String → List String
claim_name uuid_list (some uuid) (some pvc_name) =
    if any (str_eq uuid) uuid_list then pvc_name ∷ [] else []
claim_name uuid_list _ _ = []

abbrev claim_names : List String → List PersistentVolumeClaim → List String
claim_names uuid_list [] = []
claim_names uuid_list (pvc ∷ pvc_list) =
    claim_name uuid_list pvc.uid pvc.name ++ claim_names uuid_list pvc_list

unfoldable pub get_pvc_from_uuid : List String → M (List String)
get_pvc_from_uuid uuid_list = do
  client k8s_client
  pvc_list ← request (λ env t. env.list_pvc t) Call.list_pvc Error.list_pvc
  pure (claim_names uuid_list pvc_list)

unfoldable pub refuse_single : List String → M (Unit {0})
refuse_single [] = pure tt
refuse_single (uuid ∷ uuids) = do
  claims ← get_pvc_from_uuid (uuid ∷ uuids)
  error Prompt.single_replica_volume_warning (join "\n" claims)
  fail single_replica_volume_err

unfoldable pub single_volume_replica_validation : M (Unit {0})
single_volume_replica_validation = do
  volumes ← with_rounds λ n. paginate n single_replica_page (some (pos 0)) []
  refuse_single volumes

abbrev is_rebuilding : Option ℕ → Bool
is_rebuilding none = false
is_rebuilding (some progress) = true

-- `if let Some(target) = &volume.state.target { if target.children.iter().any(..) }`
abbrev pub has_rebuild : Option (List (Option ℕ)) → Bool
has_rebuild none = false
has_rebuild (some children) = any is_rebuilding children

-- `return Ok(true)`, or the loop's test of the token.
unfoldable pub rebuild_found : Bool → (Option ℤ → M Bool) → Option ℤ → M Bool
rebuild_found true loop token = pure true
rebuild_found false loop none = pure false
rebuild_found false loop (some token) = loop (some token)

-- The loop over the pages, for so many of them.
unfoldable pub rebuild_loop : ℕ → Option ℤ → M Bool
rebuild_loop zero token = stuck
rebuild_loop (suc n) token = do
  page ← volumes_page token
  rebuild_found (any (λ volume. has_rebuild volume.rebuilds) page.0) (rebuild_loop n) page.1

unfoldable pub is_rebuild_in_progress : M Bool
is_rebuild_in_progress = with_rounds λ n. rebuild_loop n (some (pos 0))

unfoldable pub rebuild_in_progress_validation : M (Unit {0})
rebuild_in_progress_validation = do
  rebuilding ← is_rebuild_in_progress
  if rebuilding
      then (error Prompt.rebuild_warning "" >> fail volume_rebuild_in_progress)
      else pure tt

abbrev pub parsed : Reply Version → Option Version
parsed (good version) = some version
parsed (bad s) = none

-- The version that the plugin was built from, if it is one.
unfoldable pub self_version : Env → Option String → Option Version
unfolding strip_v_prefix
self_version env none = none
self_version env (some tag) =
    if str_eq tag "" then none else parsed (env.parse_version (strip_v_prefix tag))

-- `version.pre.is_empty()`
abbrev pub is_stable : Option Version → Bool
is_stable none = false
is_stable (some version) = str_eq version.pre ""

abbrev pub is_lower : Env → Option Version → Version → Bool
is_lower env none source = false
is_lower env (some version) source = lt env.semver version source

-- One line for each version.
abbrev version_lines : Env → List Version → String
version_lines env [] = ""
version_lines env (version ∷ versions) =
    str_append (env.semver.to_string version) (str_append "\n" (version_lines env versions))

-- A check that tells the user of the failure.
unfoldable pub refuse_if : Bool → Prompt → String → Error.Error → M (Unit {0})
refuse_if b prompt text e = if b then (error prompt text >> fail e) else pure tt

-- The checks of `upgrade_path_validation`, when the source version is known.
unfoldable pub path_checks : Bool → List Version → Version → M (Unit {0})
path_checks allow_unstable unsupported_versions source = do
  env ← reads (λ env. env)
  refuse_if (contains_version env.semver unsupported_versions source) Prompt.upgrade_path_not_valid
      (version_lines env unsupported_versions) not_a_valid_source_for_upgrade
  refuse_if (env.mentions_develop (image_version_tag env.version_tag))
      Prompt.upgrade_to_unsupported_version "" invalid_upgrade_path
  refuse_if
      (not allow_unstable
        && (str_eq source.pre "" && not (is_stable (self_version env env.version_tag))))
      Prompt.stable_to_unstable_upgrade "" invalid_upgrade_path
  refuse_if (is_lower env (self_version env env.version_tag) source)
      Prompt.higher_to_lower_semver_upgrade "" invalid_upgrade_path

unfoldable pub upgrade_path_validation : String → Bool → M (Unit {0})
upgrade_path_validation ns allow_unstable = do
  unsupported_versions ←
      lift (λ env. env.parse_unsupported_versions) yaml_parse_buffer_for_unsupported_version
  source_version ← get_source_version ns
  source ← lift (λ env. env.parse_version source_version) (λ s. semver_parse s source_version)
  path_checks allow_unstable unsupported_versions source

unfoldable preflight_check : String → UpgradeArgs → M (Unit {0})
preflight_check ns resources = do
  info Prompt.upgrade_warning ""
  request (λ env t. env.rest_client t) Call.rest_client openapi_client_configuration
  if resources.skip_upgrade_path_validation_for_unsupported_version
      then pure tt
      else upgrade_path_validation ns resources.allow_unstable
  if resources.skip_replica_rebuild then pure tt else rebuild_in_progress_validation
  if resources.skip_cordoned_node_validation then pure tt else already_cordoned_nodes_validation
  if resources.skip_single_replica_volume_validation
      then pure tt
      else single_volume_replica_validation
