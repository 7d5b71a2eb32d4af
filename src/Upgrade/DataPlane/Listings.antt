-- ===== src/Upgrade/DataPlane/Listings.antt =====
-- Listings of Pods: what the checks of the control plane and of the restarted Pod tell.
use mayastor_extensions.Prelude.{
  String, Bool, true, false, ◌&&◌, ◌≡◌, refl, Option, none, some, List, [], ◌∷◌, arith, eq_refl,
  if◌then◌else◌,
}
use mayastor_extensions.Upgrade.Models.{Pod}
use mayastor_extensions.Upgrade.Env.{Env}
use mayastor_extensions.Upgrade.Constants.{agent_core_label}
use mayastor_extensions.Upgrade.Job.Hoare.{
  Hoare, Hoare-bind, Hoare-pure, Hoare-fail, Hoare-reads-bind, Hoare-with_rounds, Hoare-sleep_until,
  Hoare-weaken,
}
use mayastor_extensions.Upgrade.Kube.{note_pods, list_pods}
use mayastor_extensions.Upgrade.Pods.{all_pods_are_ready}
use mayastor_extensions.Upgrade.DataPlane.{
  with_hash, on_node, is_running, data_plane_pod_is_running, verify_data_plane_pod_is_running,
  control_plane_is_running, verify_control_plane_is_running,
}
use mayastor_extensions.Upgrade.DataPlane.Watch.{
  Watch, Guarded, Sees, FreeFor, see_pods, is_replaced, replace,
}
use mayastor_extensions.Upgrade.DataPlane.Quiet.{Quiet-pods}

module _ (env : Env) (hash : String) where
  -- What is known after a complete listing.
  pub list_pods-Sees :
      (P : Watch → Type 0) (Q : List Pod → Watch → Type 0) (namespace : String)
      (labels fields : Option String)
      → ((pods : List Pod) (w : Watch) → P w → Q pods (see_pods env hash labels fields pods w))
      → Hoare env
          (Sees env hash P)
          (list_pods namespace labels fields)
          (λ pods. Sees env hash (Q pods))
          (Guarded env hash)
  unfolding list_pods
  list_pods-Sees P Q namespace labels fields h =
      Hoare-bind _ _ (Quiet-pods env hash P namespace labels fields) λ pods. note-Sees pods
    where
      note-Sees :
          (pods : List Pod)
          → Hoare env
              (Sees env hash P)
              (note_pods labels fields pods)
              (λ pods. Sees env hash (Q pods))
              (Guarded env hash)
      note-Sees pods = record { at = λ t s. ((tt, s.0), h pods _ s.1) }

  -- No Pod is being replaced and no node is drained.
  abbrev pub Idle : Watch → Type 0
  Idle w = (w.restarting ≡ none) × (w.drained ≡ [])

  -- The control plane was seen running.
  abbrev pub IsUp : Watch → Type 0
  IsUp w = (w.core ≡ true) × (w.rest ≡ true) × (w.etcd ≡ true)

  abbrev AfterCore : Bool → Watch → Type 0
  AfterCore core w = Idle w × (core ≡ true → w.core ≡ true)

  abbrev AfterRest : Bool → Bool → Watch → Type 0
  AfterRest core rest w = Idle w × ((core && rest) ≡ true → (w.core ≡ true) × (w.rest ≡ true))

  abbrev AfterEtcd : Bool → Watch → Type 0
  AfterEtcd all w = Idle w × (all ≡ true → IsUp w)

  see-core :
      (pods : List Pod) (w : Watch)
      → Idle w
      → AfterCore (all_pods_are_ready pods) (see_pods env hash (some agent_core_label) none pods w)
  see-core pods w h = (h, λ r. ground (arith, eq_refl agent_core_label))

  see-rest :
      (core : Bool) (pods : List Pod) (w : Watch)
      → AfterCore core w
      → AfterRest core
          (all_pods_are_ready pods)
          (see_pods env hash (some env.api_rest_label) none pods w)
  see-rest core pods w h = (h.0, λ r. ground (arith, eq_refl env.api_rest_label, h.1))

  see-etcd :
      (core rest : Bool) (pods : List Pod) (w : Watch)
      → AfterRest core rest w
      → AfterEtcd
          (core && rest && all_pods_are_ready pods)
          (see_pods env hash (some env.etcd_label) none pods w)
  see-etcd core rest pods w h = (h.0, λ r. ground (arith, eq_refl env.etcd_label, h.1))

  control_plane-IsUp :
      (namespace : String)
      → Hoare env
          (Sees env hash Idle)
          (control_plane_is_running namespace)
          (λ b. Sees env hash (AfterEtcd b))
          (Guarded env hash)
  unfolding control_plane_is_running
  control_plane-IsUp namespace =
      Hoare-bind _ _
        (list_pods-Sees Idle (λ core. AfterCore (all_pods_are_ready core)) namespace _ _ see-core)
        λ core. Hoare-reads-bind _ _ (
          Hoare-bind _ _
            (list_pods-Sees (AfterCore (all_pods_are_ready core))
              (λ rest. AfterRest (all_pods_are_ready core) (all_pods_are_ready rest)) namespace _ _
              (see-rest (all_pods_are_ready core)))
            λ rest. Hoare-reads-bind _ _ (
              Hoare-bind _ _
                (list_pods-Sees (AfterRest (all_pods_are_ready core) (all_pods_are_ready rest))
                  (λ etcd.
                    AfterEtcd (
                      all_pods_are_ready core
                      && all_pods_are_ready rest
                      && all_pods_are_ready etcd))
                  namespace _ _ (see-etcd (all_pods_are_ready core) (all_pods_are_ready rest)))
                λ etcd. Hoare-pure _ (λ t h. h)))

  -- After this check the control plane is up, and still no Pod is being replaced and no node drained.
  pub verify_control_plane-IsUp :
      (namespace : String)
      → Hoare env
          (Sees env hash Idle)
          (verify_control_plane_is_running namespace)
          (λ _. Sees env hash (λ w. Idle w × IsUp w))
          (Guarded env hash)
  unfolding verify_control_plane_is_running
  verify_control_plane-IsUp namespace =
      Hoare-weaken (λ t h. h)
        (Hoare-with_rounds _ λ n.
          Hoare-sleep_until n 3 _ (control_plane-IsUp namespace) (λ t h. ((tt, h.0), h.1.0))
            (λ t h. h.0))
        (λ _ t h. (h.0, (h.1.0, h.1.1 refl)))

  -- The Pod on this node is being replaced, unless `b`; at most this node is drained.
  abbrev pub Replacing : String → Bool → Watch → Type 0
  Replacing node b w = (w.restarting ≡ (if b then none else some node)) × FreeFor w.drained node

  see-replaced :
      (node : String) (pods : List Pod) (w : Watch)
      → Replacing node false w
      → Replacing node
          (is_replaced pods)
          (see_pods env hash (some (with_hash hash)) (some (on_node node)) pods w)
  see-replaced node pods w h = (simp (h.0, eq_refl) (go (is_replaced pods)), h.1)
    where
      go : (b : Bool) → replace b (some node) ≡ (if b then none else some node)
      go true = refl
      go false = refl

  is_running-Replacing :
      (node : String) (pods : List Pod)
      → Hoare env
          (Sees env hash (Replacing node (is_replaced pods)))
          (is_running node pods)
          (λ b. Sees env hash (Replacing node b))
          (Guarded env hash)
  unfolding is_running
  is_running-Replacing node [] = Hoare-pure false (λ t h. h)
  is_running-Replacing node (pod ∷ []) = Hoare-pure _ (λ t h. h)
  is_running-Replacing node (pod ∷ other ∷ pods) = Hoare-fail _ (λ t h. h.0)

  -- The check returns when the Pod of the new revision is the only one on the node, and ready.
  pub verify_data_plane-Replacing :
      (node namespace : String)
      → Hoare env
          (Sees env hash (Replacing node false))
          (verify_data_plane_pod_is_running node namespace hash)
          (λ _. Sees env hash (Replacing node true))
          (Guarded env hash)
  unfolding verify_data_plane_pod_is_running data_plane_pod_is_running
  verify_data_plane-Replacing node namespace = Hoare-with_rounds _ λ n.
      Hoare-sleep_until {Q = λ b. Sees env hash (Replacing node b)} n 5 _
        (Hoare-bind _ _
          (list_pods-Sees (Replacing node false) (λ pods. Replacing node (is_replaced pods))
            namespace _ _ (see-replaced node))
          (is_running-Replacing node))
        (λ t h. ((tt, h.0), h.1)) (λ t h. h.0)
