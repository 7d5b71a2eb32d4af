-- ===== src/Plugin/Tests.antt =====
-- Runs of the plugin against a concrete cluster.
use Prim.Native.Nat.{compare}
use mayastor_extensions.Prelude.{
  ℕ, suc, ℤ, pos, ◌≤◌, String, true, false, ◌≡◌, refl, ◌↔◌, ◌⊎◌, Option, none, some, List, [], ◌∷◌,
  arith, All, str_eq, if◌then◌else◌,
}
use mayastor_extensions.Effect.Ends.{Returns}
use mayastor_extensions.Upgrade.Version.{release}
use mayastor_extensions.Upgrade.Models.{Node}
use mayastor_extensions.Upgrade.Env as Job
use mayastor_extensions.Plugin.Error.{volume_rebuild_in_progress}
use mayastor_extensions.Plugin.Env.{
  Call, Deployment, Env, Event, Found, Trace, Volume, Volumes, bad, good,
}
use mayastor_extensions.Plugin.Text.{split, to_string}
use mayastor_extensions.Plugin.Objects.{
  UpgradeArgs, join, upgrade_job, upgrade_job_cluster_role_binding,
}
use mayastor_extensions.Plugin.Objects.Access.{binds, grants, job-grants, needs, role_of}
use mayastor_extensions.Plugin.SetFile.{
  config_map_loop, create_config_map_data, create_helm_set_file_args, key_and_path, read_to_string,
  set_file_loop,
}
use mayastor_extensions.Plugin.SetFile.Mounted.{AllMounted, set_file-mounted}
use mayastor_extensions.Plugin.Deployment.{
  get_deployment_for_rest, get_release_name, get_source_version, image_properties, registry_in,
}
use mayastor_extensions.Plugin.Resources
use mayastor_extensions.Plugin.Resources.{
  act, cluster_role_actions, cluster_role_binding_actions, config_map_act, config_map_actions,
  create_job, create_object, create_upgrade_resources, default_args, delete_object,
  delete_upgrade_resources, get_opt, is_upgrade_job_completed, job_actions, service_account_actions,
}
use mayastor_extensions.Plugin.Resources.Seen.{Orderly}
use mayastor_extensions.Plugin.Resources.Order.{AllKindsSeen}
use mayastor_extensions.Plugin.Events
use mayastor_extensions.Plugin.Events.{
  delete_upgrade_events, get_latest_upgrade_event, latest_of, sort_by_time,
}
use mayastor_extensions.Plugin.Events.Latest.{IsLatest, latest_of-IsLatest}
use mayastor_extensions.Plugin.Apply
use mayastor_extensions.Plugin.Apply.{
  apply, attempt, await_event, execute, get_upgrade, handle_action, handle_message,
  handle_upgrade_event,
}
use mayastor_extensions.Plugin.Apply.Ends.{slept}
use mayastor_extensions.Plugin.Apply.Bounded.{execute-Returns}
use mayastor_extensions.Plugin.Apply.Done.{Settled, apply-Settled, execute-Orderly}
use mayastor_extensions.Plugin.Apply.Delete.{Patient, Refused, delete-Gone, delete-Patient}
use mayastor_extensions.Plugin.Apply.Dry.{ReadsOnly, execute-ReadsOnly}
use mayastor_extensions.Plugin.Preflight.{
  already_cordoned_nodes_validation, rebuild_in_progress_validation,
  single_volume_replica_validation, upgrade_path_validation,
}
use mayastor_extensions.Plugin.Preflight.Path.{Acceptable, upgrade_path-Acceptable}
use mayastor_extensions.Plugin.Preflight.Listed.{VolumePages, last, next}
use mayastor_extensions.Plugin.Preflight.Storage.{rebuild_validation-any, replica_validation-any}
use mayastor_extensions.Plugin.Preflight.Nodes.{Schedulable, cordon_validation-Schedulable}
use mayastor_extensions.Plugin.Task.{client, done, failed, note, ◌>>=◌}

abbrev deployment : Deployment
deployment = record {
  labels = some (("openebs.io/release", "m") ∷ ("openebs.io/version", "2.6.0") ∷ []);
  spec = some (record {
    template = some (record {
      containers =
          (record { image = some "docker.io/openebs/api-rest:v2.6.0"; image_pull_policy = none })
          ∷ [];
      image_pull_secrets = none;
    });
  });
}

abbrev started : Option ℕ → Event
started time = record {
  action = some "Upgrade";
  reason = some "MayastorUpgrade";
  message = some "{}";
  event_time = time;
}

abbrev volume : String → Volume
volume uuid = record { uuid = uuid; num_replicas = 3; rebuilds = some (some 40 ∷ []) }

abbrev node : Node
node = record { id = "n1"; spec = some (record { cordondrainstate = none }) }

abbrev volumes : Volumes
volumes = record { entries = volume "u1" ∷ volume "u2" ∷ []; next_token = none }

-- What the cluster answers when it is asked for the objects of an upgrade.
abbrev with_objects : Option Found → Env
with_objects found = record {
  product_name = "mayastor";
  product_domain_name = "openebs.io";
  product_train = "Mayastor";
  version_tag = some "v2.7.0";
  semver = record { cmp = λ a b. compare a.minor b.minor; to_string = λ a. "" };
  rounds = 2;
  k8s_client = λ t. good tt;
  rest_client = λ t. good tt;
  list_deployments = λ t ns label. good (deployment ∷ []);
  list_pods = λ t ns label. good (some "pod" ∷ []);
  list_events = λ t selector. good (started (some 3) ∷ started (some 5) ∷ started none ∷ []);
  delete_events = λ t selector. good tt;
  list_pvc = λ t. good [];
  get_opt = λ t kind name. good found;
  create = λ t object. good tt;
  delete = λ t kind name. good tt;
  get_nodes = λ t. good (node ∷ []);
  get_volumes = λ t entries token. good volumes;
  read_file = λ t path. good "text";
  parse_event = λ text. bad "no JSON";
  parse_version =
      λ text. if str_eq text "2.6.0" then good (release 2 6 0) else good (release 2 7 0);
  parse_unsupported_versions = good (release 0 0 0 ∷ []);
  mentions_develop = λ text. false;
}

-- No upgrade was started here.
abbrev fresh : Env
fresh = with_objects none

abbrev completed : Env
completed = with_objects (some (record { status = some (record { succeeded = some 1 }) }))

abbrev args : UpgradeArgs
args = record default_args { set_file = "key=/values.txt" ∷ [] }

abbrev dry : UpgradeArgs
dry = record default_args { dry_run = true }

apply_run : (apply "ns" args fresh []).0 ≡ done tt
unfolding apply attempt await_event handle_action handle_message handle_upgrade_event Events.new
    delete_upgrade_events get_latest_upgrade_event latest_of sort_by_time client note
    create_upgrade_resources service_account_actions cluster_role_actions
    cluster_role_binding_actions config_map_actions config_map_act job_actions create_job act
    create_object delete_object get_opt Resources.new get_release_name get_deployment_for_rest
    image_properties registry_in create_config_map_data config_map_loop key_and_path read_to_string
    create_helm_set_file_args set_file_loop split ◌>>=◌
apply_run = refl

execute-Returns_example : let (r, t) = execute "ns" args fresh [] in Returns r × (slept t ≤ 60)
execute-Returns_example = execute-Returns "ns" args fresh

apply-Settled_example : Settled fresh (apply "ns" args fresh []).1
apply-Settled_example = apply-Settled "ns" args fresh apply_run

execute-Orderly_example : Orderly fresh (execute "ns" args fresh []).1
execute-Orderly_example = execute-Orderly "ns" args fresh

delete-Patient_example : Patient completed (Apply.delete false "ns" completed []).1
delete-Patient_example = delete-Patient "ns" completed

delete_run : (Apply.delete false "ns" completed []).0 ≡ done tt
unfolding Apply.delete is_upgrade_job_completed client delete_upgrade_resources
    service_account_actions cluster_role_actions cluster_role_binding_actions config_map_actions
    config_map_act job_actions act delete_object get_opt Resources.new get_release_name
    get_deployment_for_rest create_config_map_data config_map_loop ◌>>=◌
delete_run = refl

delete-Gone_example :
    AllKindsSeen completed false (Apply.delete false "ns" completed []).1
    ⊎ ((false ≡ false) × Refused (Apply.delete false "ns" completed []).1)
delete-Gone_example = delete-Gone false "ns" completed delete_run

execute-ReadsOnly_example :
    ReadsOnly (execute "ns" dry fresh []).1 × ReadsOnly (get_upgrade "ns" fresh []).1
execute-ReadsOnly_example = execute-ReadsOnly "ns" dry fresh refl

abbrev events : List Event
events = started (some 3) ∷ started (some 5) ∷ started none ∷ []

latest_run : latest_of "MayastorUpgrade" events ≡ some (started (some 5))
unfolding latest_of sort_by_time
latest_run = refl

latest_of-IsLatest_example : IsLatest "MayastorUpgrade" events (started (some 5))
latest_of-IsLatest_example =
    latest_of-IsLatest "MayastorUpgrade" events (started (some 5)) latest_run

abbrev data_calls : Trace
data_calls = Call.read_file "/values.txt" (good "text") ∷ []

data_run :
    create_config_map_data ("key=/values.txt" ∷ []) fresh []
    ≡ (done (("1", "text") ∷ [], ("/values.txt", "1") ∷ []), data_calls)
unfolding create_config_map_data config_map_loop key_and_path read_to_string split to_string ◌>>=◌
data_run = refl

set_file-mounted_example :
    (arguments : List String) × (create_helm_set_file_args
        ("key=/values.txt" ∷ [])
        (some (("/values.txt", "1") ∷ []))
        fresh
        []
      ≡ (done (some (join "," arguments)), []))
    × AllMounted (("1", "text") ∷ []) data_calls ("key=/values.txt" ∷ []) arguments
set_file-mounted_example =
    set_file-mounted fresh "key=/values.txt" [] [] data_calls [] (("1", "text") ∷ [])
      (("/values.txt", "1") ∷ []) data_run

version_calls : Trace
unfolding get_source_version get_deployment_for_rest client ◌>>=◌
version_calls = (get_source_version "ns" fresh []).1

version_run : get_source_version "ns" fresh [] ≡ (done "2.6.0", version_calls)
unfolding version_calls get_source_version get_deployment_for_rest client ◌>>=◌
version_run = refl

upgrade_path-Acceptable_example :
    ((upgrade_path_validation "ns" false fresh []).0 ≡ done tt)
    ↔ Acceptable fresh false (release 0 0 0 ∷ []) (release 2 6 0)
upgrade_path-Acceptable_example =
    upgrade_path-Acceptable "ns" false fresh [] version_calls (release 0 0 0 ∷ []) "2.6.0"
      (release 2 6 0) refl version_run refl

-- Two pages of volumes: only the second has a volume that rebuilds, and one of a single replica.
abbrev quiet : Volume
quiet = record (volume "u1") { rebuilds = some (none ∷ []) }

abbrev single : Volume
single = record (volume "u2") { num_replicas = 1 }

abbrev page_from : Option ℤ → Volumes
page_from (some (pos (suc k))) = record { entries = single ∷ []; next_token = none }
page_from token = record { entries = quiet ∷ []; next_token = some (pos 200) }

abbrev paged : Env
paged = record fresh { get_volumes = λ t entries token. good (page_from token) }

abbrev page_calls : Trace
page_calls =
    Call.get_volumes 200 (some (pos 200))
      (good (record { entries = single ∷ []; next_token = none }))
    ∷ Call.get_volumes 200 (some (pos 0))
        (good (record { entries = quiet ∷ []; next_token = some (pos 200) }))
    ∷ []

pages : VolumePages paged 2 (some (pos 0)) [] (quiet ∷ single ∷ []) page_calls
pages = next (quiet ∷ []) (pos 200) refl (last (single ∷ []) refl)

rebuild_validation-any_example :
    (rebuild_in_progress_validation paged []).0 ≡ failed volume_rebuild_in_progress
rebuild_validation-any_example =
    rebuild_validation-any paged [] page_calls 2 (quiet ∷ single ∷ []) pages (omega arith)

replica_validation-any_example :
    ((single_volume_replica_validation paged []).0 ≡ done tt) ↔ (true ≡ false)
replica_validation-any_example =
    replica_validation-any paged [] page_calls 2 (quiet ∷ single ∷ []) pages (omega arith)

cordon_validation-Schedulable_example :
    ((already_cordoned_nodes_validation fresh []).0 ≡ done tt) ↔ All Schedulable (node ∷ [])
cordon_validation-Schedulable_example = cordon_validation-Schedulable fresh [] (node ∷ []) refl

abbrev pods_call : Job.Call
pods_call = Job.Call.get_pod "ns" "pod" (good none)

job-grants_example :
    let job = upgrade_job none "ns" "image" "m" args "" none none in
    let binding = upgrade_job_cluster_role_binding none "ns" "m" in
    let role = role_of none "ns" "m" in
    (binds binding role job.service_account_name ≡ true) × (grants role (needs pods_call) ≡ true)
job-grants_example = job-grants none "ns" "image" "m" args "" none none pods_call
