-- ===== src/Plugin/Apply.antt =====
-- The commands of k8s/upgrade/src/plugin/upgrade.rs: `UpgradeArgs::{execute, apply, dummy_apply}`,
-- `DeleteUpgradeArgs::delete` and `GetUpgradeArgs::get_upgrade`.
pub mod Ends
pub mod Parts
pub mod Bounded
pub mod Others
pub mod Done
pub mod Delete
pub mod Dry
use mayastor_extensions.Prelude.{
  ℕ, zero, suc, String, Bool, true, false, not, ◌&&◌, ◌||◌, Option, none, some, List, [], ◌∷◌, ◌++◌,
  str_append, str_eq, if◌then◌else◌,
}
use mayastor_extensions.Plugin.Error.{
  Error, event_serde_deserialization, k8s_client, list_pods_with_label,
  message_in_event_not_present, pod_name_not_present,
}
use mayastor_extensions.Plugin.Env.{Call, Env, Event, Prompt}
use mayastor_extensions.Plugin.Constants.{
  agent_core_pod_label, api_rest_pod_label, io_engine_pod_label, max_retry_attempts,
  upgrade_job_image_tag,
}
use mayastor_extensions.Plugin.Objects.{UpgradeArgs, join}
use mayastor_extensions.Plugin.Deployment.{get_release_name}
use mayastor_extensions.Plugin.Resources.{
  create_upgrade_resources, delete_upgrade_resources, is_upgrade_job_completed,
}
use mayastor_extensions.Plugin.Events
use mayastor_extensions.Plugin.Events.{
  create_get_upgrade_resource, delete_upgrade_events, get_latest_upgrade_event,
}
use mayastor_extensions.Plugin.Task.{
  M, Outcome, client, done, error, fail, failed, info, lift, ok_or, pause, pending, pure, reads,
  request, stuck, ◌>>=◌, ◌>>◌,
}

attempted : {A : Type 0} → Outcome A → (A → M (Unit {0})) → M (Unit {0}) → M (Unit {0})
attempted (done a) handle otherwise = handle a
attempted (failed e) handle otherwise = otherwise
attempted pending handle otherwise = stuck

-- `match task.await { Ok(a) => handle(a), Err(_) => otherwise }`
unfoldable pub attempt : {A : Type 0} → M A → (A → M (Unit {0})) → M (Unit {0}) → M (Unit {0})
unfolding attempted stuck
attempt task handle otherwise env t =
    let (r, t') = task env t in attempted r handle otherwise env t'

unfoldable pub handle_message : String → Option String → M (Unit {0})
handle_message ns none = fail message_in_event_not_present
handle_message ns (some text) = do
  event ← lift (λ env. env.parse_event text) (λ s. event_serde_deserialization text s)
  error Prompt.helm_upgrade_validation_error event.message
  delete_upgrade_resources ns

unfoldable pub handle_action : String → Option String → Option String → M (Unit {0})
unfolding handle_message
handle_action ns message none = pure tt
handle_action ns message (some action) =
    if str_eq action "Validation Failed"
    then handle_message ns message
    else info Prompt.upgrade_job_started ""

unfoldable pub handle_upgrade_event : Event → String → M (Unit {0})
handle_upgrade_event latest_event ns = handle_action ns latest_event.message latest_event.action

-- `for _i in 0 .. MAX_RETRY_ATTEMPTS`
unfoldable pub await_event : ℕ → String → String → M (Unit {0})
await_event zero release ns = pure tt
await_event (suc n) release ns = do
  pause 10
  attempt (get_latest_upgrade_event release) (λ event. handle_upgrade_event event ns)
      (await_event n release ns)

unfoldable pub apply : String → UpgradeArgs → M (Unit {0})
apply ns args = do
  Events.new
  release ← get_release_name ns
  delete_upgrade_events release
  create_upgrade_resources ns args
  await_event max_retry_attempts release ns

-- `for pod in pod_list.iter()`
unfoldable pub push_names : List (Option String) → List String → M (List String)
push_names [] pods_names = pure pods_names
push_names (name ∷ pods) pods_names = do
  name ← ok_or name pod_name_not_present
  push_names pods (pods_names ++ (name ∷ []))

unfoldable pub list_pods : String → String → List String → M (List String)
list_pods label ns pods_names = do
  client k8s_client
  pods ←
      request (λ env t. env.list_pods t ns label) (Call.list_pods ns label)
        (λ s. list_pods_with_label s label ns)
  push_names pods pods_names

-- `tag.unwrap_or("develop")`
abbrev version_or_develop : Option String → String
version_or_develop none = upgrade_job_image_tag
version_or_develop (some tag) = tag

-- The version stands behind the text of the prompt.
abbrev pub upgrade_dry_run_summary : Env → Prompt
upgrade_dry_run_summary env =
    Prompt.upgrade_dry_run_summary (str_append " : " (version_or_develop env.version_tag))

unfoldable pub dummy_apply : String → UpgradeArgs → M (Unit {0})
dummy_apply ns args = do
  agents ← list_pods agent_core_pod_label ns []
  pods_names ← list_pods api_rest_pod_label ns agents
  info Prompt.control_plane_pods_list (join "\n" pods_names)
  io_engine_pods_names ← list_pods io_engine_pod_label ns []
  info
      (if args.skip_data_plane_restart
        then Prompt.data_plane_pods_list_skip_restart
        else Prompt.data_plane_pods_list)
      (join "\n" io_engine_pods_names)
  summary ← reads upgrade_dry_run_summary
  info summary ""

unfoldable pub execute : String → UpgradeArgs → M (Unit {0})
execute ns args = if args.dry_run then dummy_apply ns args else apply ns args

-- `DeleteUpgradeArgs { force }`: the prompt is what `console_logger::error` shows as the text.
unfoldable pub delete : Bool → String → M (Unit {0})
delete force ns = do
  job_completed ← is_upgrade_job_completed ns
  if not job_completed && not force then error Prompt.delete_incomplete_job "" else pure tt
  if job_completed || force then delete_upgrade_resources ns else pure tt

-- `GetUpgradeArgs`
unfoldable pub get_upgrade : String → M (Unit {0})
get_upgrade ns = create_get_upgrade_resource ns
