-- ===== src/Plugin/Apply/Parts.antt =====
-- The actions on an upgrade's objects, and the requests of its events, end without a wait.
use mayastor_extensions.Prelude.{String, Option, none, some, List, arith}
use mayastor_extensions.Plugin.Env.{Found, Kind, Object}
use mayastor_extensions.Plugin.Objects.{UpgradeArgs}
use mayastor_extensions.Plugin.SetFile.{Map}
use mayastor_extensions.Plugin.Resources.{
  Actions, act, cluster_role_actions, cluster_role_binding_actions, config_map_act,
  config_map_actions, create_job, create_object, create_upgrade_resources, default_args,
  delete_object, delete_upgrade_resources, get_opt, is_upgrade_job_completed, job_actions, new,
  service_account_actions,
}
use mayastor_extensions.Plugin.Events
use mayastor_extensions.Plugin.Events.{
  create_get_upgrade_resource, delete_upgrade_events, get_latest_upgrade_event, log_upgrade_result,
}
use mayastor_extensions.Plugin.Apply.Ends.{
  Prompts, ask-Prompts, bind, client-Prompts, config_map_data-Prompts, deployment-Prompts,
  image-Prompts, lift-Prompts, note-Prompts, ok_or-Prompts, pure-Prompts, reads-Prompts,
  release_name-Prompts, set_file_args-Prompts,
}
use mayastor_extensions.Plugin.Task.{M}

get_opt-Prompts : (kind : Kind) (name : String) → Prompts (get_opt kind name)
unfolding get_opt
get_opt-Prompts kind name = ask-Prompts _ _ _ (λ r. omega arith)

create_object-Prompts :
    (kind : Kind) (name : String) (object : Object) → Prompts (create_object kind name object)
unfolding create_object
create_object-Prompts kind name object = ask-Prompts _ _ _ (λ r. omega arith)

delete_object-Prompts : (kind : Kind) (name : String) → Prompts (delete_object kind name)
unfolding delete_object
delete_object-Prompts kind name = ask-Prompts _ _ _ (λ r. omega arith)

act-Prompts :
    {creation : M (Unit {0})} (kind : Kind) (name : String)
    → Prompts creation
    → (action : Actions) (found : Option Found) → Prompts (act kind name creation action found)
unfolding act
act-Prompts kind name h Actions.create (some found) = pure-Prompts tt
act-Prompts kind name h Actions.delete (some found) = delete_object-Prompts kind name
act-Prompts kind name h Actions.create none = h
act-Prompts kind name h Actions.delete none = pure-Prompts tt

account-Prompts :
    (release ns : String) (action : Actions) → Prompts (service_account_actions release ns action)
unfolding service_account_actions
account-Prompts release ns action = bind (reads-Prompts _) λ name.
    bind (get_opt-Prompts _ name)
      λ found. act-Prompts _ name (create_object-Prompts _ name _) action found

role-Prompts :
    (release ns : String) (action : Actions) → Prompts (cluster_role_actions release ns action)
unfolding cluster_role_actions
role-Prompts release ns action = bind (reads-Prompts _) λ name.
    bind (get_opt-Prompts _ name)
      λ found. act-Prompts _ name (create_object-Prompts _ name _) action found

binding-Prompts :
    (release ns : String) (action : Actions)
    → Prompts (cluster_role_binding_actions release ns action)
unfolding cluster_role_binding_actions
binding-Prompts release ns action = bind (reads-Prompts _) λ name.
    bind (get_opt-Prompts _ name) λ found.
      bind (reads-Prompts _)
        λ version. act-Prompts _ name (create_object-Prompts _ name _) action found

config_map_act-Prompts :
    (release ns name : String) (files : List String) (entries : Map) (action : Actions)
    (found : Option Found)
    → Prompts (config_map_act release ns name files entries action found)
unfolding config_map_act
config_map_act-Prompts release ns name files entries Actions.create (some found) =
    bind (delete_object-Prompts _ name)
      λ _. bind (reads-Prompts _) λ version. create_object-Prompts _ name _
config_map_act-Prompts release ns name files entries Actions.delete (some found) =
    delete_object-Prompts _ name
config_map_act-Prompts release ns name files entries Actions.create none =
    bind (config_map_data-Prompts files)
      λ again. bind (reads-Prompts _) λ version. create_object-Prompts _ name _
config_map_act-Prompts release ns name files entries Actions.delete none = pure-Prompts tt

config_map-Prompts :
    (release ns : String) (action : Actions) (args : UpgradeArgs)
    → Prompts (config_map_actions release ns action args)
unfolding config_map_actions
config_map-Prompts release ns action args = bind (reads-Prompts _) λ name.
    bind (config_map_data-Prompts _) λ made.
      bind (get_opt-Prompts _ name)
        λ found. bind (config_map_act-Prompts release ns name _ _ action found) λ _. pure-Prompts _

create_job-Prompts :
    (release ns name : String) (args : UpgradeArgs) (map : Option Map)
    → Prompts (create_job release ns name args map)
unfolding create_job
create_job-Prompts release ns name args map = bind (deployment-Prompts ns) λ d.
    bind (image-Prompts d) λ img. bind (set_file_args-Prompts _ map) λ set_file.
      bind (reads-Prompts _)
        λ image. bind (reads-Prompts _) λ version. create_object-Prompts _ name _

job-Prompts :
    (release ns : String) (action : Actions) (args : UpgradeArgs) (map : Option Map)
    → Prompts (job_actions release ns action args map)
unfolding job_actions
job-Prompts release ns action args map = bind (reads-Prompts _) λ name.
    bind (get_opt-Prompts _ name)
      λ found. act-Prompts _ name (create_job-Prompts release ns name args map) action found

new-Prompts : (ns : String) → Prompts (new ns)
unfolding new
new-Prompts ns = bind (client-Prompts _) λ _. release_name-Prompts ns

pub create-Prompts : (ns : String) (args : UpgradeArgs) → Prompts (create_upgrade_resources ns args)
unfolding create_upgrade_resources
create-Prompts ns args = bind (new-Prompts ns) λ release. bind (account-Prompts release ns _) λ _.
    bind (role-Prompts release ns _) λ _.
      bind (binding-Prompts release ns _)
        λ _. bind (config_map-Prompts release ns _ args) λ map. job-Prompts release ns _ args _

pub delete-Prompts : (ns : String) → Prompts (delete_upgrade_resources ns)
unfolding delete_upgrade_resources
delete-Prompts ns = bind (new-Prompts ns) λ release.
    bind (job-Prompts release ns _ default_args none) λ _.
      bind (config_map-Prompts release ns _ default_args) λ map.
        bind (binding-Prompts release ns _)
          λ _. bind (role-Prompts release ns _) λ _. account-Prompts release ns _

completed-Prompts : (ns : String) → Prompts (is_upgrade_job_completed ns)
unfolding is_upgrade_job_completed
completed-Prompts ns = bind (new-Prompts ns) λ release. bind (reads-Prompts _) λ name.
    bind (get_opt-Prompts _ name) λ found.
      bind (ok_or-Prompts found _) λ job. bind (ok_or-Prompts job.status _) λ status. pure-Prompts _

pub events-Prompts : Prompts Events.new
unfolding Events.new
events-Prompts = client-Prompts _

pub delete_events-Prompts : (release : String) → Prompts (delete_upgrade_events release)
unfolding delete_upgrade_events
delete_events-Prompts release = bind (reads-Prompts _) λ field. ask-Prompts _ _ _ (λ r. omega arith)

pub latest_event-Prompts : (release : String) → Prompts (get_latest_upgrade_event release)
unfolding get_latest_upgrade_event
latest_event-Prompts release = bind (reads-Prompts _) λ field.
    bind (ask-Prompts _ _ _ (λ r. omega arith))
      λ events. bind (reads-Prompts _) λ reason. ok_or-Prompts _ _

log-Prompts : (message : Option String) → Prompts (log_upgrade_result message)
unfolding log_upgrade_result
log-Prompts none = pure-Prompts tt
log-Prompts (some message) = bind (lift-Prompts _ _) λ event. note-Prompts _ (omega arith)

get_upgrade-Prompts : (ns : String) → Prompts (create_get_upgrade_resource ns)
unfolding create_get_upgrade_resource
get_upgrade-Prompts ns = bind (release_name-Prompts ns) λ release.
    bind events-Prompts λ _. bind (latest_event-Prompts release) λ event. log-Prompts event.message
