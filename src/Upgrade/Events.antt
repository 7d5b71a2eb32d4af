-- ===== src/Upgrade/Events.antt =====
-- k8s/upgrade/src/bin/upgrade-job/events/event_recorder.rs. The recorder's state is the pair of
-- versions; its channel is the call `send`. The worker that hands the events to Kubernetes is not
-- modelled.
use mayastor_extensions.Prelude.{
  String, Bool, Option, none, some, List, [], ◌∷◌, str_append, str_eq, if◌then◌else◌,
}
use mayastor_extensions.Upgrade.Error.{
  Error, event_channel_send, event_recorder_options_absent, get_pod, job_pod_has_too_many_owners,
  job_pod_owner_is_not_job, job_pod_owner_not_found, serialize_event_note,
}
use mayastor_extensions.Upgrade.Env.{
  Call, Env, Event, EventNote, EventType, Trace, OwnerReference, normal, warning,
}
use mayastor_extensions.Upgrade.Job.{
  Outcome, done, failed, M, pure, fail, lift, reads, request, ◌>>=◌, ◌>>◌,
}
use mayastor_extensions.Upgrade.Kube.{client}

-- `upgrade_failed` is the source's `Failed`.
pub data EventAction : Type 0 where
  upgrade_failed validation_failed upgrading_cp upgraded_cp upgrading_dp upgraded_dp successful :
      EventAction

unfoldable pub to_string : EventAction → String
to_string upgrade_failed = "Failed"
to_string validation_failed = "Validation Failed"
to_string upgrading_cp = "Upgrading control-plane"
to_string upgraded_cp = "Upgraded control-plane"
to_string upgrading_dp = "Upgrading data-plane"
to_string upgraded_dp = "Upgraded data-plane"
to_string successful = "Successful"

pub record EventRecorder : Type 0 where
  pub source_version : String
  pub target_version : String

pub record EventRecorderBuilder : Type 0 where
  pub pod_name : Option String
  pub namespace : Option String
  pub source_version : Option String
  pub target_version : Option String

-- The one owner, which has to be a Job.
unfoldable pub pod_owner : String → String → Option (List OwnerReference) → M OwnerReference
pod_owner pod namespace none = fail (job_pod_owner_not_found pod namespace)
pod_owner pod namespace (some []) = fail (job_pod_owner_not_found pod namespace)
pod_owner pod namespace (some (owner ∷ [])) =
    if str_eq owner.kind "Job" then pure owner else fail (job_pod_owner_is_not_job pod namespace)
pod_owner pod namespace (some (owner ∷ other ∷ more)) =
    fail (job_pod_has_too_many_owners pod namespace)

abbrev unwrap_or : Option String → String → String
unwrap_or none default = default
unwrap_or (some s) default = s

-- `ensure!` on both options, and their `unwrap`
unfoldable pub options : Option String → Option String → M (String × String)
options (some pod) (some namespace) = pure (pod, namespace)
options _ _ = fail event_recorder_options_absent

unfoldable pub build : EventRecorderBuilder → M EventRecorder
unfolding options pod_owner
build builder = do
  names ← options builder.pod_name builder.namespace
  client
  owners ←
      request (λ env t. env.get_pod t names.1 names.0) (Call.get_pod names.1 names.0)
        (λ s. get_pod s names.0 names.1)
  pod_owner names.0 names.1 owners
  client
  pure (record {
    source_version = unwrap_or builder.source_version "--";
    target_version = unwrap_or builder.target_version "--";
  })

unfoldable pub publish : Event → M (Unit {0})
publish event = request (λ env t. env.send t event) (Call.send event) (λ _. event_channel_send)

abbrev pub event_of : Env → EventType → String → String → Event
event_of env type note action = record {
  type_ = type;
  reason = str_append env.product_train "Upgrade";
  note = some note;
  action = action;
}

abbrev pub note_of : EventRecorder → String → EventNote
note_of recorder message = record {
  from_version = recorder.source_version;
  to_version = recorder.target_version;
  message = message;
}

-- `publish_normal` and `publish_warning`
unfoldable pub publish_typed : EventType → EventRecorder → String → EventAction → M (Unit {0})
unfolding publish to_string
publish_typed type recorder message action = do
  note ←
      lift (λ env. env.note_json (note_of recorder message)) (λ s. serialize_event_note s message)
  event ← reads (λ env. event_of env type note (to_string action))
  publish event

abbrev pub publish_normal : EventRecorder → String → EventAction → M (Unit {0})
publish_normal = publish_typed normal

abbrev publish_warning : EventRecorder → String → EventAction → M (Unit {0})
publish_warning = publish_typed warning

-- `let _ = ....await.map_err(...)`
abbrev pub ignore : Outcome (Unit {0}) × Trace → Outcome (Unit {0}) × Trace
ignore (failed e, t) = (done tt, t)
ignore (r, t) = (r, t)

unfoldable pub publish_unrecoverable : EventRecorder → Error → Bool → M (Unit {0})
publish_unrecoverable recorder error validation_error env t = ignore (
    publish_warning recorder (str_append "Failed to upgrade: " (env.display error))
      (if validation_error then validation_failed else upgrade_failed) env t)

abbrev pub set_versions : EventRecorder → String → String → EventRecorder
set_versions recorder source target = record recorder {
  source_version = source;
  target_version = target;
}
