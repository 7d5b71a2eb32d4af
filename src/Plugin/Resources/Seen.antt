-- ===== src/Plugin/Resources/Seen.antt =====
-- What the calls have shown of the objects of an upgrade, and the order in which they may be created
-- and deleted.
use mayastor_extensions.Prelude.{
  String, Bool, true, false, ◌&&◌, ◌≡◌, Option, none, some, List, [], ◌∷◌, All, str_eq,
  if◌then◌else◌,
}
use mayastor_extensions.Plugin.Env.{
  Env, Trace, Call, Found, Kind, Object, good, get_opt, create, delete, delete_events,
}
use mayastor_extensions.Plugin.Resources.{name_of}

abbrev pub kind_eq : Kind → Kind → Bool
kind_eq Kind.service_account Kind.service_account = true
kind_eq Kind.cluster_role Kind.cluster_role = true
kind_eq Kind.cluster_role_binding Kind.cluster_role_binding = true
kind_eq Kind.config_map Kind.config_map = true
kind_eq Kind.job Kind.job = true
kind_eq _ _ = false

abbrev pub kind_of : Object → Kind
kind_of (Object.service_account o) = Kind.service_account
kind_of (Object.cluster_role o) = Kind.cluster_role
kind_of (Object.cluster_role_binding o) = Kind.cluster_role_binding
kind_of (Object.config_map o) = Kind.config_map
kind_of (Object.job o) = Kind.job

abbrev pub object_name : Object → String
object_name (Object.service_account o) = o.metadata.name
object_name (Object.cluster_role o) = o.metadata.name
object_name (Object.cluster_role_binding o) = o.metadata.name
object_name (Object.config_map o) = o.metadata.name
object_name (Object.job o) = o.metadata.name

abbrev pub is_there : Option Found → Bool
is_there none = false
is_there (some found) = true

-- Whether the call shows the object of this kind and name to be there, or not to be there.
abbrev pub shows : Kind → String → Call → Option Bool
shows kind name (get_opt k n (good found)) =
    if kind_eq k kind && str_eq n name then some (is_there found) else none
shows kind name (create o (good r)) =
    if kind_eq (kind_of o) kind && str_eq (object_name o) name then some true else none
shows kind name (delete k n (good r)) = if kind_eq k kind && str_eq n name then some false else none
shows kind name _ = none

abbrev or_else : Option Bool → Option Bool → Option Bool
or_else (some b) before = some b
or_else none before = before

-- The last that the calls have shown of it.
abbrev pub last_seen : Kind → String → Trace → Option Bool
last_seen kind name [] = none
last_seen kind name (call ∷ t) = or_else (shows kind name call) (last_seen kind name t)

module _ (env : Env) where
  -- All objects of these kinds were last seen there, or all not there.
  abbrev pub AllSeen : Bool → String → List Kind → Trace → Type 0
  AllSeen b release kinds t = All (λ k. last_seen k (name_of env release k) t ≡ some b) kinds

  -- A Job is created only while the account that it runs under, the ConfigMap that it mounts, and the
  -- role with its binding were last seen there. The account, the role and the binding are deleted only
  -- while the Job was last seen gone.
  abbrev pub InOrder : Trace → Call → Type 0
  InOrder t (create (Object.job job) reply) =
      (release : String) × (job.metadata.name ≡ name_of env release Kind.job)
      × (last_seen Kind.service_account job.service_account_name t ≡ some true)
      × (last_seen Kind.config_map job.volume_config_map t ≡ some true)
      × AllSeen true release (Kind.cluster_role ∷ Kind.cluster_role_binding ∷ []) t
  InOrder t (delete Kind.service_account name reply) =
      (release : String) × (name ≡ name_of env release Kind.service_account)
      × AllSeen false release (Kind.job ∷ []) t
  InOrder t (delete Kind.cluster_role name reply) =
      (release : String) × (name ≡ name_of env release Kind.cluster_role)
      × AllSeen false release (Kind.job ∷ []) t
  InOrder t (delete Kind.cluster_role_binding name reply) =
      (release : String) × (name ≡ name_of env release Kind.cluster_role_binding)
      × AllSeen false release (Kind.job ∷ []) t
  InOrder t _ = Unit {0}

  -- Every call was in order when it was made.
  abbrev pub Orderly : Trace → Type 0
  Orderly [] = Unit {0}
  Orderly (call ∷ t) = InOrder t call × Orderly t

-- Calls that change nothing and do not look for an object of an upgrade.
abbrev pub is_other : Call → Bool
is_other (delete_events s r) = false
is_other (get_opt k n r) = false
is_other (create o r) = false
is_other (delete k n r) = false
is_other _ = true
