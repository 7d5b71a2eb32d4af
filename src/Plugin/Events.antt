-- ===== src/Plugin/Events.antt =====
-- `UpgradeEventClient` of k8s/upgrade/src/plugin/upgrade.rs: the events of the upgrade's Job.
pub mod Latest
use mayastor_extensions.Prelude.{
  ℕ, String, Bool, true, false, Option, none, some, List, [], ◌∷◌, keep, ltb, str_append, str_eq,
  if◌then◌else◌,
}
use mayastor_extensions.Plugin.Error.{
  delete_events_with_field_selector, event_serde_deserialization, k8s_client_generation,
  list_events_with_field_selector, upgrade_event_not_present,
}
use mayastor_extensions.Plugin.Env.{Call, Env, Event}
use mayastor_extensions.Plugin.Constants.{upgrade_event_selector, upgrade_job_name_suffix}
use mayastor_extensions.Plugin.Deployment.{first, get_release_name}
use mayastor_extensions.Plugin.Task.{
  M, client, lift, note, ok_or, pure, reads, request, ◌>>=◌, ◌>>◌,
}

-- constants/src/lib.rs
abbrev upgrade_event_reason : Env → String
upgrade_event_reason env = str_append env.product_train "Upgrade"

abbrev pub selector : Env → String → String
selector env release = upgrade_event_selector env.version_tag release upgrade_job_name_suffix

unfoldable pub new : M (Unit {0})
new = client k8s_client_generation

unfoldable pub delete_upgrade_events : String → M (Unit {0})
delete_upgrade_events release = do
  field ← reads (λ env. selector env release)
  request (λ env t. env.delete_events t field) (Call.delete_events field)
      (λ s. delete_events_with_field_selector s field)

-- `e.reason == Some(reason)`
abbrev pub has_reason : String → Option String → Bool
has_reason reason none = false
has_reason reason (some r) = str_eq r reason

-- `a < b` of `Option<MicroTime>`
abbrev pub earlier : Option ℕ → Option ℕ → Bool
earlier a none = false
earlier none (some b) = true
earlier (some a) (some b) = ltb a b

insert_event : Event → List Event → List Event
insert_event e [] = e ∷ []
insert_event e (f ∷ events) =
    let rest = insert_event e events in
    if earlier e.event_time f.event_time then f ∷ rest else e ∷ f ∷ events

-- `sort_by(|a, b| b.event_time.cmp(&a.event_time))`, which keeps the order of equal times.
unfoldable pub sort_by_time : List Event → List Event
unfolding insert_event
sort_by_time [] = []
sort_by_time (e ∷ events) = insert_event e (sort_by_time events)

unfoldable pub latest_of : String → List Event → Option Event
unfolding sort_by_time
latest_of reason events = first (sort_by_time (keep (λ e. has_reason reason e.reason) events))

unfoldable pub get_latest_upgrade_event : String → M Event
get_latest_upgrade_event release = do
  field ← reads (λ env. selector env release)
  events ←
      request (λ env t. env.list_events t field) (Call.list_events field)
        (λ s. list_events_with_field_selector s field)
  reason ← reads upgrade_event_reason
  ok_or (latest_of reason events) upgrade_event_not_present

-- The missing message is no error: the result of that branch is dropped.
unfoldable pub log_upgrade_result : Option String → M (Unit {0})
log_upgrade_result none = pure tt
log_upgrade_result (some message) = do
  event ← lift (λ env. env.parse_event message) (λ s. event_serde_deserialization message s)
  note (Call.status event)

-- `GetUpgradeArgs::get_upgrade`
unfoldable pub create_get_upgrade_resource : String → M (Unit {0})
create_get_upgrade_resource ns = do
  release ← get_release_name ns
  new
  event ← get_latest_upgrade_event release
  log_upgrade_result event.message
