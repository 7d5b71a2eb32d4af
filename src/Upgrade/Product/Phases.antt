-- ===== src/Upgrade/Product/Phases.antt =====
-- The phases of an upgrade, told by the events that the job has sent, and the calls that belong to
-- each of them.
use mayastor_extensions.Prelude.{String, Bool, true, ◌≡◌, List, [], ◌∷◌, ◌++◌, arith, if◌then◌else◌}
use mayastor_extensions.Upgrade.Env.{
  Call, EventType, Trace, good, normal, get_nodes, get_node, put_node_cordon, delete_node_cordon,
  put_node_drain, get_volumes, k8s_client, list_pods, list_nodes_metadata, list_revisions,
  list_crds, pods_listed, delete_pod, sleep, helm, yq, read_file, create_tempfile, write,
  get_namespace, get_pod, send,
}
use mayastor_extensions.Upgrade.Product.Kinds.{is_cluster, is_host, is_listing, is_real_upgrade}

-- The type and the action of each event that was sent, the latest first.
abbrev pub sent : Trace → List (EventType × String)
sent [] = []
sent (send e (good u) ∷ t) = (e.type_, e.action) ∷ sent t
sent (call ∷ t) = sent t

abbrev pub cp_started : List (EventType × String)
cp_started = (normal, "Upgrading control-plane") ∷ (normal, "Upgrading control-plane") ∷ []

abbrev pub cp_done : List (EventType × String)
cp_done = (normal, "Upgraded control-plane") ∷ cp_started

abbrev pub dp_started : List (EventType × String)
dp_started = (normal, "Upgrading data-plane") ∷ cp_done

abbrev pub dp_done : List (EventType × String)
dp_done = (normal, "Upgraded data-plane") ∷ dp_started

-- All events of an upgrade that went well, with or without the restarts.
abbrev pub all_done : Bool → List (EventType × String)
all_done skip = (normal, "Successful") ∷ (if skip then cp_done else dp_done)

-- But for events, the last thing was a successful dry run of these arguments.
abbrev pub DryRan : List String → Trace → Type 0
DryRan args [] = ⊥
DryRan args (helm a (good output) ∷ t) = (a ≡ args ++ "--dry-run" ∷ []) × (output.success ≡ true)
DryRan args (send e r ∷ t) = DryRan args t
DryRan args (call ∷ t) = ⊥

-- The real helm upgrade comes after its own dry run and the control plane's first two events;
-- cordons, drains and the deletion of Pods come after the data plane's first event.
abbrev Belongs : Trace → Call → Type 0
Belongs t (helm args r) = is_real_upgrade args ≡ true → (sent t ≡ cp_started) × DryRan args t
Belongs t (put_node_cordon n l r) = sent t ≡ dp_started
Belongs t (delete_node_cordon n l r) = sent t ≡ dp_started
Belongs t (put_node_drain n l r) = sent t ≡ dp_started
Belongs t (delete_pod s p n r) = sent t ≡ dp_started
Belongs t call = Unit {0}

-- Every call belonged to the phase that it was made in.
abbrev pub Phased : Trace → Type 0
Phased [] = Unit {0}
Phased (call ∷ t) = Belongs t call × Phased t

abbrev pub In : List (EventType × String) → Trace → Type 0
In es t = Phased t × (sent t ≡ es)

pub safe : (es : List (EventType × String)) (t : Trace) → In es t → Phased t
safe es t h = h.0

pub step-host :
    (es : List (EventType × String)) (t : Trace) (c : Call)
    → is_host c ≡ true
    → In es t
    → In es (c ∷ t)
step-host es t (get_nodes a) k h = absurd (cc k)
step-host es t (get_node a b) k h = absurd (cc k)
step-host es t (put_node_cordon a b c) k h = absurd (cc k)
step-host es t (delete_node_cordon a b c) k h = absurd (cc k)
step-host es t (put_node_drain a b c) k h = absurd (cc k)
step-host es t (get_volumes a b c) k h = absurd (cc k)
step-host es t (k8s_client a) k h = ((tt, h.0), h.1)
step-host es t (list_pods a b) k h = ((tt, h.0), h.1)
step-host es t (list_nodes_metadata a b) k h = ((tt, h.0), h.1)
step-host es t (list_revisions a b) k h = ((tt, h.0), h.1)
step-host es t (list_crds a b) k h = ((tt, h.0), h.1)
step-host es t (pods_listed a b c) k h = ((tt, h.0), h.1)
step-host es t (delete_pod a b c d) k h = absurd (cc k)
step-host es t (sleep a) k h = absurd (cc k)
step-host es t (helm a b) k h = (((λ real. absurd (ground (arith, k, real))), h.0), h.1)
step-host es t (yq a b c) k h = ((tt, h.0), h.1)
step-host es t (read_file a b) k h = ((tt, h.0), h.1)
step-host es t (create_tempfile a b) k h = ((tt, h.0), h.1)
step-host es t (write a b c) k h = ((tt, h.0), h.1)
step-host es t (get_pod a b c) k h = ((tt, h.0), h.1)
step-host es t (get_namespace a b) k h = absurd (cc k)
step-host es t (send a b) k h = absurd (cc k)

pub step-listing :
    (es : List (EventType × String)) (t : Trace) (c : Call)
    → is_listing c ≡ true
    → In es t
    → In es (c ∷ t)
step-listing es t (get_nodes a) k h = absurd (cc k)
step-listing es t (get_node a b) k h = absurd (cc k)
step-listing es t (put_node_cordon a b c) k h = absurd (cc k)
step-listing es t (delete_node_cordon a b c) k h = absurd (cc k)
step-listing es t (put_node_drain a b c) k h = absurd (cc k)
step-listing es t (get_volumes a b c) k h = absurd (cc k)
step-listing es t (k8s_client a) k h = ((tt, h.0), h.1)
step-listing es t (list_pods a b) k h = ((tt, h.0), h.1)
step-listing es t (list_nodes_metadata a b) k h = ((tt, h.0), h.1)
step-listing es t (list_revisions a b) k h = ((tt, h.0), h.1)
step-listing es t (list_crds a b) k h = absurd (cc k)
step-listing es t (pods_listed a b c) k h = ((tt, h.0), h.1)
step-listing es t (delete_pod a b c d) k h = absurd (cc k)
step-listing es t (sleep a) k h = absurd (cc k)
step-listing es t (helm a b) k h = absurd (cc k)
step-listing es t (yq a b c) k h = absurd (cc k)
step-listing es t (read_file a b) k h = absurd (cc k)
step-listing es t (create_tempfile a b) k h = absurd (cc k)
step-listing es t (write a b c) k h = absurd (cc k)
step-listing es t (get_pod a b c) k h = absurd (cc k)
step-listing es t (get_namespace a b) k h = absurd (cc k)
step-listing es t (send a b) k h = absurd (cc k)

pub step-cluster :
    (t : Trace) (c : Call) → is_cluster c ≡ true → In dp_started t → In dp_started (c ∷ t)
step-cluster t (get_nodes a) k h = ((tt, h.0), h.1)
step-cluster t (get_node a b) k h = ((tt, h.0), h.1)
step-cluster t (put_node_cordon a b c) k h = ((h.1, h.0), h.1)
step-cluster t (delete_node_cordon a b c) k h = ((h.1, h.0), h.1)
step-cluster t (put_node_drain a b c) k h = ((h.1, h.0), h.1)
step-cluster t (get_volumes a b c) k h = ((tt, h.0), h.1)
step-cluster t (k8s_client a) k h = ((tt, h.0), h.1)
step-cluster t (list_pods a b) k h = ((tt, h.0), h.1)
step-cluster t (list_nodes_metadata a b) k h = ((tt, h.0), h.1)
step-cluster t (list_revisions a b) k h = ((tt, h.0), h.1)
step-cluster t (list_crds a b) k h = absurd (cc k)
step-cluster t (pods_listed a b c) k h = ((tt, h.0), h.1)
step-cluster t (delete_pod a b c d) k h = ((h.1, h.0), h.1)
step-cluster t (sleep a) k h = ((tt, h.0), h.1)
step-cluster t (helm a b) k h = absurd (cc k)
step-cluster t (yq a b c) k h = absurd (cc k)
step-cluster t (read_file a b) k h = absurd (cc k)
step-cluster t (create_tempfile a b) k h = absurd (cc k)
step-cluster t (write a b c) k h = absurd (cc k)
step-cluster t (get_pod a b c) k h = absurd (cc k)
step-cluster t (get_namespace a b) k h = absurd (cc k)
step-cluster t (send a b) k h = absurd (cc k)
