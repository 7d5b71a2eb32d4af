-- ===== src/Plugin/Objects/Access.antt =====
-- What the upgrade job may do under the account, the role and the binding that the plugin creates for
-- it, against what it does.
use mayastor_extensions.Prelude.{
  String, Bool, true, false, not, ◌&&◌, ◌≡◌, refl, Option, none, some, List, any, str_eq, eq_refl,
}
use mayastor_extensions.Upgrade.Env as Job
use mayastor_extensions.Plugin.Constants.{
  cluster_role_suffix, service_account_suffix, upgrade_name_concat,
}
use mayastor_extensions.Plugin.Role.{ClusterRole, PolicyRule, upgrade_job_cluster_role}
use mayastor_extensions.Plugin.Objects.{
  ClusterRoleBinding, UpgradeArgs, upgrade_job, upgrade_job_cluster_role_binding,
}

-- A verb on a resource of an API group.
pub record Access : Type 0 where
  pub group : String
  pub resource : String
  pub verb : String

abbrev access : String → String → String → Option Access
access group resource verb = some (record { group = group; resource = resource; verb = verb })

-- What Kubernetes asks of the account that makes this call, if it is a call of its API. What helm, a
-- process that the job starts, asks of Kubernetes is not in the record of calls.
abbrev pub needs : Job.Call → Option Access
needs (Job.Call.list_pods params reply) = access "" "pods" "list"
needs (Job.Call.delete_pod namespace pod node reply) = access "" "pods" "delete"
needs (Job.Call.get_pod namespace pod reply) = access "" "pods" "get"
needs (Job.Call.get_namespace namespace reply) = access "" "namespaces" "get"
needs (Job.Call.list_nodes_metadata params reply) = access "" "nodes" "list"
needs (Job.Call.list_crds params reply) =
    access "apiextensions.k8s.io" "customresourcedefinitions" "list"
needs (Job.Call.list_revisions params reply) = access "apps" "controllerrevisions" "list"
needs (Job.Call.send event reply) = access "events.k8s.io" "events" "create"
needs _ = none

abbrev lists_revisions : Job.Call → Bool
lists_revisions (Job.Call.list_revisions params reply) = true
lists_revisions _ = false

abbrev allows : Access → PolicyRule → Bool
allows a rule =
    any (str_eq a.group) rule.api_groups
    && any (str_eq a.resource) rule.resources
    && any (str_eq a.verb) rule.verbs

abbrev pub grants : ClusterRole → Option Access → Bool
grants role none = true
grants role (some a) = any (allows a) role.rules

-- The binding gives the role to the account.
abbrev pub binds : ClusterRoleBinding → ClusterRole → String → Bool
binds binding role account =
    str_eq binding.role_ref.name role.metadata.name
    && any (λ subject. str_eq subject.name account) binding.subjects

-- The role that the plugin creates for this release.
abbrev pub role_of : Option String → String → String → ClusterRole
role_of version namespace release =
    upgrade_job_cluster_role namespace (upgrade_name_concat version release cluster_role_suffix)

role-grants :
    (namespace name : String) (call : Job.Call)
    → grants (upgrade_job_cluster_role namespace name) (needs call) ≡ not (lists_revisions call)
unfolding upgrade_job_cluster_role
role-grants namespace name (Job.Call.list_pods params reply) = refl
role-grants namespace name (Job.Call.delete_pod _ pod node reply) = refl
role-grants namespace name (Job.Call.get_pod _ pod reply) = refl
role-grants namespace name (Job.Call.get_namespace _ reply) = refl
role-grants namespace name (Job.Call.list_nodes_metadata params reply) = refl
role-grants namespace name (Job.Call.list_crds params reply) = refl
role-grants namespace name (Job.Call.list_revisions params reply) = refl
role-grants namespace name (Job.Call.send event reply) = refl
role-grants namespace name _ = refl

-- The account that the created Job runs under is bound to the created role. Of the calls of the
-- Kubernetes API that the upgrade job itself makes (the namespace of its arguments, Pods, nodes,
-- custom resource definitions, controller revisions and events; helm's own calls are not among them),
-- the role grants each but one: the listing of the controller revisions, which no rule allows.
pub job-grants :
    (version : Option String) (namespace image release : String) (args : UpgradeArgs)
    (set_file : String) (secrets : Option (List String)) (policy : Option String) (call : Job.Call)
    → let job = upgrade_job version namespace image release args set_file secrets policy in
      let binding = upgrade_job_cluster_role_binding version namespace release in
      let role = role_of version namespace release in
      (binds binding role job.service_account_name ≡ true)
      × (grants role (needs call) ≡ not (lists_revisions call))
unfolding upgrade_job upgrade_job_cluster_role_binding upgrade_job_cluster_role
job-grants version namespace image release args set_file secrets policy call = (
  rw
      (
        eq_refl (upgrade_name_concat version release cluster_role_suffix),
        eq_refl (upgrade_name_concat version release service_account_suffix),
      )
      refl,
  role-grants namespace (upgrade_name_concat version release cluster_role_suffix) call,
)
