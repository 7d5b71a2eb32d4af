-- ===== src/Plugin/Role.antt =====
-- `upgrade_job_cluster_role` of k8s/upgrade/src/plugin/objects.rs: what the upgrade job may do.
use mayastor_extensions.Prelude.{String, List, [], ◌∷◌, ◌++◌}

-- k8s_openapi `ObjectMeta`
pub record ObjectMeta : Type 0 where
  pub name : String
  pub namespace : String

pub record PolicyRule : Type 0 where
  pub api_groups : List String
  pub resources : List String
  pub verbs : List String

pub record ClusterRole : Type 0 where
  pub metadata : ObjectMeta
  pub rules : List PolicyRule

abbrev rule : List String → List String → List String → PolicyRule
rule api_groups resources verbs = record {
  api_groups = api_groups;
  resources = resources;
  verbs = verbs;
}

abbrev cluster_rules : List PolicyRule
cluster_rules =
    rule ("apiextensions.k8s.io" ∷ []) ("customresourcedefinitions" ∷ [])
      ("create" ∷ "list" ∷ "delete" ∷ "get" ∷ "patch" ∷ [])
    ∷ rule ("openebs.io" ∷ []) ("upgradeactions" ∷ [])
        ("get" ∷ "create" ∷ "list" ∷ "watch" ∷ "update" ∷ "replace" ∷ "patch" ∷ [])
    ∷ rule ("openebs.io" ∷ []) ("upgradeactions/status" ∷ []) ("update" ∷ "patch" ∷ [])
    ∷ rule ("apps" ∷ []) ("daemonsets" ∷ "replicasets" ∷ "statefulsets" ∷ "deployments" ∷ [])
        ("create" ∷ "delete" ∷ "get" ∷ "list" ∷ "patch" ∷ [])
    ∷ rule ("" ∷ []) ("serviceaccounts" ∷ []) ("create" ∷ "get" ∷ "list" ∷ "delete" ∷ "patch" ∷ [])
    ∷ rule ("" ∷ []) ("pods" ∷ [])
        ("create" ∷ "get" ∷ "list" ∷ "delete" ∷ "patch" ∷ "deletecollection" ∷ [])
    ∷ rule ("" ∷ []) ("nodes" ∷ []) ("get" ∷ "list" ∷ [])
    ∷ rule ("" ∷ []) ("namespaces" ∷ []) ("get" ∷ [])
    ∷ rule ("events.k8s.io" ∷ []) ("events" ∷ []) ("create" ∷ [])
    ∷ rule ("" ∷ [])
        ("secrets" ∷ "persistentvolumes" ∷ "persistentvolumeclaims" ∷ "services" ∷ "configmaps"
          ∷ [])
        ("get" ∷ "list" ∷ "watch" ∷ "create" ∷ "delete" ∷ "deletecollection" ∷ "patch" ∷ "update"
          ∷ [])
    ∷ []

abbrev more_cluster_rules : List PolicyRule
more_cluster_rules =
    rule ("rbac.authorization.k8s.io" ∷ []) ("roles" ∷ [])
      ("create" ∷ "list" ∷ "delete" ∷ "get" ∷ "patch" ∷ "escalate" ∷ "bind" ∷ [])
    ∷ rule ("monitoring.coreos.com" ∷ []) ("prometheusrules" ∷ "podmonitors" ∷ [])
        ("create" ∷ "list" ∷ "delete" ∷ "get" ∷ "patch" ∷ [])
    ∷ rule ("networking.k8s.io" ∷ []) ("networkpolicies" ∷ [])
        ("create" ∷ "list" ∷ "delete" ∷ "get" ∷ "patch" ∷ [])
    ∷ rule ("batch" ∷ []) ("cronjobs" ∷ []) ("create" ∷ "list" ∷ "delete" ∷ "get" ∷ "patch" ∷ [])
    ∷ rule ("jaegertracing.io" ∷ []) ("jaegers" ∷ [])
        ("create" ∷ "list" ∷ "delete" ∷ "get" ∷ "patch" ∷ [])
    ∷ rule ("rbac.authorization.k8s.io" ∷ []) ("rolebindings" ∷ [])
        ("create" ∷ "list" ∷ "delete" ∷ "get" ∷ "patch" ∷ [])
    ∷ rule ("rbac.authorization.k8s.io" ∷ []) ("clusterroles" ∷ [])
        ("create" ∷ "list" ∷ "delete" ∷ "get" ∷ "patch" ∷ "escalate" ∷ "bind" ∷ [])
    ∷ rule ("rbac.authorization.k8s.io" ∷ []) ("clusterrolebindings" ∷ [])
        ("create" ∷ "list" ∷ "delete" ∷ "get" ∷ "patch" ∷ [])
    ∷ rule ("storage.k8s.io" ∷ []) ("storageclasses" ∷ [])
        ("create" ∷ "list" ∷ "delete" ∷ "get" ∷ "patch" ∷ [])
    ∷ rule ("scheduling.k8s.io" ∷ []) ("priorityclasses" ∷ [])
        ("create" ∷ "list" ∷ "delete" ∷ "get" ∷ "patch" ∷ [])
    ∷ rule ("policy" ∷ []) ("poddisruptionbudgets" ∷ [])
        ("create" ∷ "list" ∷ "delete" ∷ "get" ∷ "patch" ∷ [])
    ∷ []

unfoldable pub upgrade_job_cluster_role : String → String → ClusterRole
upgrade_job_cluster_role namespace name = record {
  metadata = record { name = name; namespace = namespace };
  rules = cluster_rules ++ more_cluster_rules;
}
