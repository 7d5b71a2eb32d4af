-- ===== src/Upgrade/DataPlane/Order.antt =====
-- The order of the data-plane upgrade, whatever the cluster does: one Pod at a time.
use mayastor_extensions.Prelude.{
  ℕ, zero, suc, String, Bool, true, false, not, ◌≡◌, refl, none, List, [], ◌∷◌,
}
use mayastor_extensions.Upgrade.Models.{Pod, Node}
use mayastor_extensions.Upgrade.Env.{Env, Trace}
use mayastor_extensions.Upgrade.Job.{Outcome, done, failed, pending, M, stuck, for_each}
use mayastor_extensions.Upgrade.Job.Hoare.{
  Post, Hoare, Hoare-bind, Hoare-pure, Hoare-fail, Hoare-stuck, Hoare-request, Hoare-lift,
  Hoare-ok_or, Hoare-if, Hoare-reads-bind, Hoare-with_rounds, Hoare-for_each, Hoare-weaken,
}
use mayastor_extensions.Upgrade.Rest.{new_with_url, delete_node_cordon, get_node}
use mayastor_extensions.Upgrade.Cordon.{
  is_cordoned, node_state, uncordon_storage_node, uncordon_drained_storage_node,
}
use mayastor_extensions.Upgrade.DataPlane.{
  frontend_nodes_ana_check, after_check, settle, ana_check, is_node_drainable,
  delete_data_plane_pod, drain_if, restart_on, upgrade_pod, pods_round, upgrade_rounds, upgrade_all,
  upgrade_data_plane,
}
use mayastor_extensions.Upgrade.DataPlane.Watch.{Watch, Guarded, Sees, FreeFor}
use mayastor_extensions.Upgrade.DataPlane.Quiet.{
  Quiet, Quiet-client, Quiet-get_nodes, Quiet-list_all_volumes, Quiet-list_nodes_metadata,
  Quiet-wait_for_rebuild,
}
use mayastor_extensions.Upgrade.DataPlane.Nodes.{
  KeepsNear, cordon-KeepsNear, uncordon-KeepsNear, uncordon_drained-Undrains, drain-KeepsNear,
}
use mayastor_extensions.Upgrade.DataPlane.Listings.{
  Idle, IsUp, list_pods-Sees, verify_control_plane-IsUp, Replacing, verify_data_plane-Replacing,
}

-- The check's result waits for the other call, its error too.
pub Hoare-settle :
    {A : Type 0} {env : Env} {P F E : Trace → Type 0} {Q R : A → Trace → Type 0} (check : M A)
    (finally : M (Unit {0}))
    → Hoare env P check Q F
    → ((a : A) → Hoare env (Q a) finally (λ _. R a) E)
    → Hoare env F finally (λ _. E) E
    → ((t : Trace) → F t → E t)
    → Hoare env P (settle check finally) R E
unfolding settle stuck
Hoare-settle {A} {env} {P} {F} {E} {Q} {R} check finally hc hf he safe = record {
  at = λ t h. let (r, t') = check env t in go r t' (hc.at t h);
}
  where
    go :
        (r : Outcome A) (t : Trace)
        → Post Q F r t
        → let (o, t') = after_check r finally env t in Post R E o t'
    go (done a) t h =
        (Hoare-bind finally _ (hf a) (λ _. Hoare-pure {P = R a} {Q = R} a (λ t h. h))).at t h
    go (failed e) t h =
        (Hoare-bind finally _ he (λ _. Hoare-fail {P = E} {Q = R} e (λ t h. h))).at t h
    go pending t h = safe t h

module _ (env : Env) (hash : String) where
  -- The calls of an uncordon are in order at any time.
  uncordon-in_order :
      (id label : String)
      → Hoare env
          (Guarded env hash)
          (uncordon_storage_node id label)
          (λ _. Guarded env hash)
          (Guarded env hash)
  unfolding uncordon_storage_node node_state get_node delete_node_cordon
  uncordon-in_order id label =
      Hoare-bind {Q = λ _. Guarded env hash} _ _
        (Hoare-bind {Q = λ _. Guarded env hash} _ _
          (Hoare-request _ _ _ (λ t a h. (tt, h)) (λ t s h. (tt, h)))
          λ node.
            Hoare-bind {Q = λ _. Guarded env hash} _ _
              (Hoare-ok_or node.spec _ (λ t s e h. h) (λ t h. h)) λ spec. Hoare-pure _ (λ t h. h))
        λ state.
          Hoare-if (is_cordoned label state) _ _
            (λ _. Hoare-request _ _ _ (λ t a h. (tt, h)) (λ t s h. (tt, h)))
            (λ _. Hoare-pure tt (λ t h. h))

  -- Before the Pod is deleted.
  abbrev Steady : Watch → Type 0
  Steady w = (w.restarting ≡ none) × IsUp env hash w

  abbrev Calm : Watch → Type 0
  Calm w = w.restarting ≡ none

  frontend_check-Quiet :
      (P : Watch → Type 0) (node : String) (names : List String)
      → Quiet env hash P (frontend_nodes_ana_check node names)
  unfolding frontend_nodes_ana_check
  frontend_check-Quiet P node names =
      Hoare-bind _ _ (Quiet-list_all_volumes env hash P) (λ vs. Hoare-pure _ (λ t h. h))

  ana_check-KeepsNear :
      (node : String) (names : List String)
      → KeepsNear env hash Steady (λ w d h. h) node (ana_check node names)
  unfolding ana_check
  ana_check-KeepsNear node [] = Hoare-pure true (λ t h. h)
  ana_check-KeepsNear node (name ∷ names) = Hoare-reads-bind _ _ (
      Hoare-bind _ _ (cordon-KeepsNear env hash Steady (λ w d h. h) node _) λ _.
        Hoare-settle _ _
          (frontend_check-Quiet (λ w. Steady w × FreeFor w.drained node) node (name ∷ names))
          (λ a. uncordon-KeepsNear env hash Steady (λ w d h. h) node _) (uncordon-in_order node _)
          (λ t h. h))

  is_node_drainable-KeepsNear :
      (ha : Bool) (node : String)
      → KeepsNear env hash Steady (λ w d h. h) node (is_node_drainable ha node)
  unfolding is_node_drainable
  is_node_drainable-KeepsNear ha node =
      Hoare-if (not ha) _ _ (λ _. Hoare-pure false (λ t h. h))
        (λ _. Hoare-reads-bind _ _ (
          Hoare-bind _ _
            (Quiet-list_nodes_metadata env hash (λ w. Steady w × FreeFor w.drained node) _ none)
            (ana_check-KeepsNear node)))

  drain_if-KeepsNear :
      (b : Bool) (node : String) → KeepsNear env hash Steady (λ w d h. h) node (drain_if b node)
  unfolding drain_if
  drain_if-KeepsNear b node =
      Hoare-if b _ _ (λ _. drain-KeepsNear env hash Steady (λ w d h. h) (λ w h. h.0) node)
        (λ _. Hoare-pure tt (λ t h. h))

  delete-Replacing :
      (node : String) (pod : Pod) (namespace : String)
      → Hoare env
          (Sees env hash (λ w. Steady w × FreeFor w.drained node))
          (delete_data_plane_pod node pod namespace)
          (λ _. Sees env hash (Replacing env hash node false))
          (Guarded env hash)
  unfolding delete_data_plane_pod
  delete-Replacing node pod namespace =
      Hoare-bind _ _ (Quiet-client env hash (λ w. Steady w × FreeFor w.drained node)) λ _.
        Hoare-request _ _ _
          (λ t a h. (((h.1.0.0, h.1.0.1.0, h.1.0.1.1, h.1.0.1.2, h.1.1), h.0), (refl, h.1.1)))
          (λ t s h. ((h.1.0.0, h.1.0.1.0, h.1.0.1.1, h.1.0.1.2, h.1.1), h.0))

  no-drain-FreeFor : (d : List String) (node : String) → d ≡ [] → FreeFor d node
  no-drain-FreeFor [] node e = tt
  no-drain-FreeFor (x ∷ d) node e = absurd (cc e)

  restart_on-Idle :
      (namespace : String) (ha : Bool) (pod : Pod) (node : String)
      → Hoare env
          (Sees env hash (λ w. Idle env hash w × IsUp env hash w))
          (restart_on namespace ha hash pod node)
          (λ _. Sees env hash (Idle env hash))
          (Guarded env hash)
  unfolding restart_on
  restart_on-Idle namespace ha pod node =
      Hoare-weaken {P' = Sees env hash (λ w. Steady w × FreeFor w.drained node)}
        (λ t h. (h.0, ((h.1.0.0, h.1.1), no-drain-FreeFor _ node h.1.0.1)))
        (Hoare-bind _ _
          (Quiet-wait_for_rebuild env hash (λ w. Steady w × FreeFor w.drained node) node)
          λ _. Hoare-bind _ _ (is_node_drainable-KeepsNear ha node) λ drainable.
            Hoare-bind _ _ (drain_if-KeepsNear drainable node) λ _.
              Hoare-bind _ _ (delete-Replacing node pod namespace) λ _.
                Hoare-bind _ _ (verify_data_plane-Replacing env hash node namespace)
                  λ _. uncordon_drained-Undrains env hash Calm (λ w d h. h) node)
        (λ _ t h. h)

  upgrade_pod-Idle :
      (namespace : String) (ha : Bool) (pod : Pod)
      → Hoare env
          (Sees env hash (Idle env hash))
          (upgrade_pod namespace ha hash pod)
          (λ _. Sees env hash (Idle env hash))
          (Guarded env hash)
  unfolding upgrade_pod
  upgrade_pod-Idle namespace ha pod =
      Hoare-bind _ _ (verify_control_plane-IsUp env hash namespace) λ _.
        Hoare-bind {Q = λ _. Sees env hash (λ w. Idle env hash w × IsUp env hash w)} _ _
          (Hoare-ok_or pod.spec _ (λ t a e h. h) (λ t h. h.0))
          λ spec.
            Hoare-bind {Q = λ _. Sees env hash (λ w. Idle env hash w × IsUp env hash w)} _ _
              (Hoare-ok_or spec.node_name _ (λ t a e h. h) (λ t h. h.0))
              (restart_on-Idle namespace ha pod)

  upgrade_rounds-Idle :
      (n : ℕ) (namespace : String) (ha : Bool) (left_label : String)
      → Hoare env
          (Sees env hash (Idle env hash))
          (upgrade_rounds n namespace ha hash left_label)
          (λ _. Sees env hash (Idle env hash))
          (Guarded env hash)
  unfolding upgrade_rounds pods_round
  upgrade_rounds-Idle zero namespace ha left_label = Hoare-stuck (λ t h. h.0)
  upgrade_rounds-Idle (suc n) namespace ha left_label =
      Hoare-bind _ _
        (list_pods-Sees env hash (Idle env hash) (λ _. Idle env hash) namespace _ none
          (λ pods w h. h))
        (round (upgrade_rounds-Idle n namespace ha left_label))
    where
      round :
          {again : M (Unit {0})}
          → Hoare env
              (Sees env hash (Idle env hash))
              again
              (λ _. Sees env hash (Idle env hash))
              (Guarded env hash)
          → (pods : List Pod)
          → Hoare env
              (Sees env hash (Idle env hash))
              (pods_round again (λ pods. for_each pods (upgrade_pod namespace ha hash)) pods)
              (λ _. Sees env hash (Idle env hash))
              (Guarded env hash)
      round h [] = Hoare-pure tt (λ t h. h)
      round h (pod ∷ pods) =
          Hoare-bind _ _ (Hoare-for_each (pod ∷ pods) _ (upgrade_pod-Idle namespace ha)) (λ _. h)

  upgrade_all-Idle :
      (namespace rest_endpoint : String) (ha : Bool) (left_label : String)
      → Hoare env
          (Sees env hash (Idle env hash))
          (upgrade_all namespace rest_endpoint hash ha left_label)
          (λ _. Sees env hash (Idle env hash))
          (Guarded env hash)
  unfolding upgrade_all new_with_url
  upgrade_all-Idle namespace rest_endpoint ha left_label =
      Hoare-bind {Q = λ _. Sees env hash (Idle env hash)} _ _
        (Hoare-bind {Q = λ _. Sees env hash (Idle env hash)} _ _
          (Hoare-lift _ _ (λ t a e h. h) (λ t h. h.0))
          λ url. Hoare-lift _ _ (λ t a e h. h) (λ t h. h.0))
        λ _. Hoare-bind _ _ (Quiet-get_nodes env hash (Idle env hash)) λ storage_nodes.
          Hoare-bind _ _ (Hoare-for_each storage_nodes _ uncordon)
            λ _. Hoare-with_rounds _ λ n. upgrade_rounds-Idle n namespace ha left_label
    where
      uncordon :
          (node : Node)
          → Hoare env
              (Sees env hash (Idle env hash))
              (uncordon_drained_storage_node node.id)
              (λ _. Sees env hash (Idle env hash))
              (Guarded env hash)
      uncordon node =
          Hoare-weaken (λ t h. (h.0, (h.1.0, no-drain-FreeFor _ node.id h.1.1)))
            (uncordon_drained-Undrains env hash Calm (λ w d h. h) node.id) (λ _ t h. h)

  pub upgrade_data_plane-Idle :
      (namespace rest_endpoint : String) (ha : Bool) (left_label : String) (pods : List Pod)
      → Hoare env
          (Sees env hash (Idle env hash))
          (upgrade_data_plane namespace rest_endpoint hash ha left_label pods)
          (λ _. Sees env hash (Idle env hash))
          (Guarded env hash)
  unfolding upgrade_data_plane
  upgrade_data_plane-Idle namespace rest_endpoint ha left_label [] = Hoare-pure tt (λ t h. h)
  upgrade_data_plane-Idle namespace rest_endpoint ha left_label (pod ∷ pods) =
      upgrade_all-Idle namespace rest_endpoint ha left_label
