-- ===== src/Upgrade/DataPlane/Calls.antt =====
-- The data-plane upgrade keeps what listings, storage calls and waiting keep.
use mayastor_extensions.Prelude.{
  ℕ, zero, suc, String, Bool, true, false, not, ◌≡◌, refl, Option, none, List, [], ◌∷◌,
}
use mayastor_extensions.Upgrade.Models.{Pod}
use mayastor_extensions.Upgrade.Env.{Env, Trace, Call}
use mayastor_extensions.Upgrade.Job.{M}
use mayastor_extensions.Upgrade.Job.Hoare.{
  Hoare-bind, Hoare-fail, Hoare-for_each, Hoare-lift, Hoare-ok_or, Hoare-reads, Hoare-with_rounds,
  Hoare-weaken,
}
use mayastor_extensions.Upgrade.Job.Keeps.{Keeps-sleep_until}
use mayastor_extensions.Upgrade.Rest.{get_nodes, new_with_url}
use mayastor_extensions.Upgrade.Kube.{list_pods}
use mayastor_extensions.Upgrade.DataPlane.{
  ana_check, control_plane_is_running, data_plane_pod_is_running, delete_data_plane_pod, drain_if,
  frontend_nodes_ana_check, is_node_drainable, is_running, pods_round, restart_on, upgrade_all,
  upgrade_data_plane, upgrade_pod, upgrade_rounds, verify_control_plane_is_running,
  verify_data_plane_pod_is_running,
}
use mayastor_extensions.Upgrade.DataPlane.Order.{Hoare-settle}
use mayastor_extensions.Upgrade.Product.Kinds.{is_cluster}
use mayastor_extensions.Upgrade.Product.Listing.{
  client-Stays, list_nodes_metadata-Stays, list_pods-Stays,
}
use mayastor_extensions.Upgrade.Product.Cluster.{
  Stays, ask, choose, cordon-Stays, drain-Stays, halt, list_all_volumes-Stays, ok, step_listing,
  uncordon-Stays, uncordon_drained-Stays, wait_for_rebuild-Stays,
}

module _ (env : Env) (I E : Trace → Type 0) (safe : (t : Trace) → I t → E t)
    (step : (t : Trace) (c : Call) → is_cluster c ≡ true → I t → I (c ∷ t)) where
  abbrev Keep : {A : Type 0} → M A → Type 0
  Keep m = Stays env I E safe step m

  pods :
      (namespace : String) (labels fields : Option String)
      → Keep (list_pods namespace labels fields)
  pods = list_pods-Stays env I E safe (step_listing env I E safe step)

  control_plane-Keep : (namespace : String) → Keep (verify_control_plane_is_running namespace)
  unfolding verify_control_plane_is_running control_plane_is_running
  control_plane-Keep namespace = Hoare-with_rounds _ λ n.
      Keeps-sleep_until env is_cluster I E safe step n 3 _
        (Hoare-bind _ _ (pods namespace _ none) λ core.
          Hoare-bind {Q = λ _. I} _ _ (Hoare-reads _ (λ t h. h)) λ rest_label.
            Hoare-bind _ _ (pods namespace _ none) λ rest.
              Hoare-bind {Q = λ _. I} _ _ (Hoare-reads _ (λ t h. h))
                λ etcd_label. Hoare-bind _ _ (pods namespace _ none) λ etcd. ok env I E safe step _)
        refl

  is_running-Keep : (node : String) (l : List Pod) → Keep (is_running node l)
  unfolding is_running
  is_running-Keep node [] = ok env I E safe step false
  is_running-Keep node (pod ∷ []) = ok env I E safe step _
  is_running-Keep node (pod ∷ other ∷ l) = Hoare-fail _ safe

  data_plane_pod-Keep :
      (node namespace hash : String) → Keep (verify_data_plane_pod_is_running node namespace hash)
  unfolding verify_data_plane_pod_is_running data_plane_pod_is_running
  data_plane_pod-Keep node namespace hash = Hoare-with_rounds _ λ n.
      Keeps-sleep_until env is_cluster I E safe step n 5 _
        (Hoare-bind _ _ (pods namespace _ _) (is_running-Keep node)) refl

  ana_check-Keep : (node : String) (names : List String) → Keep (ana_check node names)
  unfolding ana_check frontend_nodes_ana_check
  ana_check-Keep node [] = ok env I E safe step true
  ana_check-Keep node (name ∷ names) =
      Hoare-bind {Q = λ _. I} _ _ (Hoare-reads _ (λ t h. h)) λ label.
        Hoare-bind _ _ (cordon-Stays env I E safe step node label) λ _.
          Hoare-settle _ _
            (Hoare-bind _ _ (list_all_volumes-Stays env I I (λ t h. h) step)
              (λ vs. ok env I I (λ t h. h) step _))
            (λ a. uncordon-Stays env I E safe step node label)
            (Hoare-weaken (λ t h. h) (uncordon-Stays env I E safe step node label)
              (λ _ t h. safe t h))
            safe

  is_node_drainable-Keep : (ha : Bool) (node : String) → Keep (is_node_drainable ha node)
  unfolding is_node_drainable
  is_node_drainable-Keep ha node = choose env I E safe step (not ha) (ok env I E safe step false) (
      Hoare-bind {Q = λ _. I} _ _ (Hoare-reads _ (λ t h. h)) λ label.
        Hoare-bind _ _
          (list_nodes_metadata-Stays env I E safe (step_listing env I E safe step) _ none)
          (ana_check-Keep node))

  drain_if-Keep : (b : Bool) (node : String) → Keep (drain_if b node)
  unfolding drain_if
  drain_if-Keep b node =
      choose env I E safe step b (drain-Stays env I E safe step node) (ok env I E safe step tt)

  delete-Keep :
      (node : String) (pod : Pod) (namespace : String)
      → Keep (delete_data_plane_pod node pod namespace)
  unfolding delete_data_plane_pod
  delete-Keep node pod namespace =
      Hoare-bind _ _ (client-Stays env I E safe (step_listing env I E safe step))
        λ _. ask env I E safe step _ _ _ (λ r. refl)

  upgrade_pod-Keep :
      (namespace : String) (ha : Bool) (hash : String) (pod : Pod)
      → Keep (upgrade_pod namespace ha hash pod)
  unfolding upgrade_pod restart_on
  upgrade_pod-Keep namespace ha hash pod = Hoare-bind _ _ (control_plane-Keep namespace) λ _.
      Hoare-bind {Q = λ _. I} _ _ (Hoare-ok_or pod.spec _ (λ t a e h. h) safe) λ spec.
        Hoare-bind {Q = λ _. I} _ _ (Hoare-ok_or spec.node_name _ (λ t a e h. h) safe) λ node.
          Hoare-bind _ _ (wait_for_rebuild-Stays env I E safe step node) λ _.
            Hoare-bind _ _ (is_node_drainable-Keep ha node) λ drainable.
              Hoare-bind _ _ (drain_if-Keep drainable node) λ _.
                Hoare-bind _ _ (delete-Keep node pod namespace) λ _.
                  Hoare-bind _ _ (data_plane_pod-Keep node namespace hash)
                    λ _. uncordon_drained-Stays env I E safe step node

  pods_round-Keep :
      (again : M (Unit {0})) (body : List Pod → M (Unit {0}))
      → Keep again
      → ((l : List Pod) → Keep (body l))
      → (l : List Pod) → Keep (pods_round again body l)
  unfolding pods_round
  pods_round-Keep again body h hb [] = ok env I E safe step tt
  pods_round-Keep again body h hb (pod ∷ l) = Hoare-bind _ _ (hb (pod ∷ l)) (λ _. h)

  upgrade_rounds-Keep :
      (n : ℕ) (namespace : String) (ha : Bool) (hash left_label : String)
      → Keep (upgrade_rounds n namespace ha hash left_label)
  unfolding upgrade_rounds
  upgrade_rounds-Keep zero namespace ha hash left_label = halt env I E safe step
  upgrade_rounds-Keep (suc n) namespace ha hash left_label =
      Hoare-bind _ _ (pods namespace _ none) (
        pods_round-Keep _ _ (upgrade_rounds-Keep n namespace ha hash left_label)
          (λ l. Hoare-for_each l _ (upgrade_pod-Keep namespace ha hash)))

  pub upgrade_data_plane-Keep :
      (namespace rest_endpoint hash : String) (ha : Bool) (left_label : String) (l : List Pod)
      → Keep (upgrade_data_plane namespace rest_endpoint hash ha left_label l)
  unfolding upgrade_data_plane upgrade_all new_with_url get_nodes
  upgrade_data_plane-Keep namespace rest_endpoint hash ha left_label [] = ok env I E safe step tt
  upgrade_data_plane-Keep namespace rest_endpoint hash ha left_label (pod ∷ l) =
      Hoare-bind {Q = λ _. I} _ _
        (Hoare-bind {Q = λ _. I} _ _ (Hoare-lift _ _ (λ t a e h. h) safe)
          λ url. Hoare-lift _ _ (λ t a e h. h) safe)
        λ _. Hoare-bind _ _ (ask env I E safe step _ _ _ (λ r. refl)) λ nodes.
          Hoare-bind _ _
            (Hoare-for_each nodes _ (λ node. uncordon_drained-Stays env I E safe step node.id))
            λ _. Hoare-with_rounds _ λ n. upgrade_rounds-Keep n namespace ha hash left_label
