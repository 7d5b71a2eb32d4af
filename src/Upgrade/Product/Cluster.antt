-- ===== src/Upgrade/Product/Cluster.antt =====
-- Cordons, drains and the waits for rebuilds keep what listings, storage calls and waiting keep.
use mayastor_extensions.Prelude.{
  ℕ, zero, suc, ℤ, String, Bool, true, false, ◌≡◌, refl, Option, none, some, List, [], ◌∷◌,
  if◌then◌else◌,
}
use mayastor_extensions.Upgrade.Error.{Error}
use mayastor_extensions.Upgrade.Models.{Volume, Nexus}
use mayastor_extensions.Upgrade.Env.{Env, Trace, Call, Reply}
use mayastor_extensions.Upgrade.Job.{M, pure, request, pause, stuck}
use mayastor_extensions.Upgrade.Job.Hoare.{
  Hoare-bind, Hoare-if, Hoare-ok_or, Hoare-pure, Hoare-reads, Hoare-stuck, Hoare-with_rounds,
}
use mayastor_extensions.Effect.Paging.{Hoare-paginate}
use mayastor_extensions.Upgrade.Job.Keeps.{Keeps, Keeps-pause, Keeps-request}
use mayastor_extensions.Upgrade.Rest.{
  delete_node_cordon, get_node, get_volumes, put_node_cordon, put_node_drain,
}
use mayastor_extensions.Upgrade.Cordon.{
  cordon_storage_node, drain_loop, drain_storage_node, node_state, uncordon_drained_storage_node,
  uncordon_loop, uncordon_storage_node,
}
use mayastor_extensions.Upgrade.Rebuild.{
  max_entries, unhealthy_page, list_unhealthy_volumes, list_all_volumes, RebuildResult, Sweep,
  found, swept, await_rebuild, visit, sweep_target, sweep, after_sweep, after_list, rebuild_rounds,
  rebuild_result, wait_loop, wait_for_rebuild,
}
use mayastor_extensions.Upgrade.Product.Kinds.{is_cluster, is_listing}

pub listing-cluster : (c : Call) → is_listing c ≡ true → is_cluster c ≡ true
listing-cluster c h = rw h refl

module _ (env : Env) (I E : Trace → Type 0) (safe : (t : Trace) → I t → E t)
    (step : (t : Trace) (c : Call) → is_cluster c ≡ true → I t → I (c ∷ t)) where
  abbrev pub Stays : {A : Type 0} → M A → Type 0
  Stays m = Keeps env is_cluster I E safe step m

  abbrev pub step_listing : (t : Trace) (c : Call) → is_listing c ≡ true → I t → I (c ∷ t)
  step_listing t c k h = step t c (listing-cluster c k) h

  abbrev pub ask :
      {A : Type 0} (f : Env → Trace → Reply A) (log : Reply A → Call) (e : String → Error)
      → ((r : Reply A) → is_cluster (log r) ≡ true)
      → Stays (request f log e)
  ask f log e k = Keeps-request env is_cluster I E safe step f log e k

  abbrev pub ok : {A : Type 0} (a : A) → Stays (pure a)
  ok a = Hoare-pure a (λ t h. h)

  abbrev pub wait : (n : ℕ) → Stays (pause n)
  wait n = Keeps-pause env is_cluster I E safe step n refl

  abbrev pub halt : {A : Type 0} → Stays (stuck {A = A})
  halt = Hoare-stuck safe

  abbrev pub choose :
      {A : Type 0} (b : Bool) {m n : M A} → Stays m → Stays n → Stays (if b then m else n)
  choose b {m} {n} hm hn = Hoare-if b m n (λ _. hm) (λ _. hn)

  get_volumes-Stays : (n : ℕ) (token : Option ℤ) → Stays (get_volumes n token)
  unfolding get_volumes
  get_volumes-Stays n token = Hoare-bind _ _ (ask _ _ _ (λ r. refl)) (λ page. ok _)

  pub list_all_volumes-Stays : Stays list_all_volumes
  unfolding list_all_volumes
  list_all_volumes-Stays =
      Hoare-with_rounds _ λ n. Hoare-paginate n _ _ _ (get_volumes-Stays max_entries) safe

  list_unhealthy_volumes-Stays :
      (discarded : List Volume) → Stays (list_unhealthy_volumes discarded)
  unfolding list_unhealthy_volumes unhealthy_page
  list_unhealthy_volumes-Stays discarded =
      Hoare-bind _ _
        (Hoare-with_rounds _ λ n.
          Hoare-paginate n _ _ _
            (λ token. Hoare-bind _ _ (get_volumes-Stays max_entries token) (λ page. ok _)) safe)
        (λ vs. ok _)

  await_rebuild-Stays : (n : ℕ) (volume : Volume) → Stays (await_rebuild n volume)
  unfolding await_rebuild
  await_rebuild-Stays zero volume = ok false
  await_rebuild-Stays (suc n) volume =
      Hoare-bind _ _ (wait 60) λ _. choose _ (ok true) (await_rebuild-Stays n volume)

  sweep_target-Stays :
      (node : String) (volume : Volume) (target : Option Nexus) (over : List String)
      (stale : List Volume) (rest : List String → List Volume → M Sweep)
      → ((over : List String) (stale : List Volume) → Stays (rest over stale))
      → Stays (sweep_target node volume target over stale rest)
  unfolding sweep_target visit
  sweep_target-Stays node volume none over stale rest h = h over stale
  sweep_target-Stays node volume (some target) over stale rest h =
      choose _
        (choose _
          (Hoare-bind _ _ (await_rebuild-Stays 11 volume) λ started. choose started (ok _) (h _ _))
          (ok _))
        (h _ _)

  sweep-Stays :
      (node : String) (volumes : List Volume) (over : List String) (stale : List Volume)
      → Stays (sweep node volumes over stale)
  unfolding sweep
  sweep-Stays node [] over stale = ok _
  sweep-Stays node (volume ∷ volumes) over stale =
      sweep_target-Stays node volume volume.state.target over stale _ (sweep-Stays node volumes)

  after_sweep-Stays :
      (again : List Volume → M RebuildResult) (s : Sweep)
      → ((stale : List Volume) → Stays (again stale))
      → Stays (after_sweep again s)
  unfolding after_sweep
  after_sweep-Stays again (found stale) h = ok _
  after_sweep-Stays again (swept [] stale) h = ok _
  after_sweep-Stays again (swept (node ∷ nodes) stale) h = h stale

  after_list-Stays :
      (again : List Volume → M RebuildResult) (node : String) (stale unhealthy : List Volume)
      → ((stale : List Volume) → Stays (again stale))
      → Stays (after_list again node stale unhealthy)
  unfolding after_list
  after_list-Stays again node stale [] h = ok _
  after_list-Stays again node stale (volume ∷ volumes) h =
      Hoare-bind _ _ (sweep-Stays node (volume ∷ volumes) [] stale) λ s. after_sweep-Stays again s h

  rebuild_rounds-Stays :
      (n : ℕ) (node : String) (stale : List Volume) → Stays (rebuild_rounds n node stale)
  unfolding rebuild_rounds
  rebuild_rounds-Stays zero node stale = halt
  rebuild_rounds-Stays (suc n) node stale =
      Hoare-bind _ _ (list_unhealthy_volumes-Stays stale)
        λ unhealthy. after_list-Stays _ node stale unhealthy (rebuild_rounds-Stays n node)

  wait_loop-Stays : (n : ℕ) (node : String) (stale : List Volume) → Stays (wait_loop n node stale)
  unfolding wait_loop rebuild_result
  wait_loop-Stays zero node stale = halt
  wait_loop-Stays (suc n) node stale =
      Hoare-bind _ _ (Hoare-with_rounds _ λ n. rebuild_rounds-Stays n node stale) λ rebuild.
        choose _ (Hoare-bind _ _ (wait 10) λ _. wait_loop-Stays n node rebuild.discarded_volumes)
          (ok tt)

  pub wait_for_rebuild-Stays : (node : String) → Stays (wait_for_rebuild node)
  unfolding wait_for_rebuild
  wait_for_rebuild-Stays node =
      Hoare-bind _ _ (wait 60) λ _. Hoare-with_rounds _ λ n. wait_loop-Stays n node []

  node_state-Stays : (id : String) → Stays (node_state id)
  unfolding node_state get_node
  node_state-Stays id = Hoare-bind _ _ (ask _ _ _ (λ r. refl)) λ node.
      Hoare-bind {Q = λ _. I} _ _ (Hoare-ok_or node.spec _ (λ t a e h. h) safe) (λ spec. ok _)

  pub cordon-Stays : (id label : String) → Stays (cordon_storage_node id label)
  unfolding cordon_storage_node put_node_cordon
  cordon-Stays id label =
      Hoare-bind _ _ (node_state-Stays id) λ s. choose _ (ok tt) (ask _ _ _ (λ r. refl))

  pub uncordon-Stays : (id label : String) → Stays (uncordon_storage_node id label)
  unfolding uncordon_storage_node delete_node_cordon
  uncordon-Stays id label =
      Hoare-bind _ _ (node_state-Stays id) λ s. choose _ (ask _ _ _ (λ r. refl)) (ok tt)

  uncordon_loop-Stays : (n : ℕ) (id label : String) → Stays (uncordon_loop n id label)
  unfolding uncordon_loop delete_node_cordon
  uncordon_loop-Stays zero id label = halt
  uncordon_loop-Stays (suc n) id label = Hoare-bind _ _ (node_state-Stays id) λ s.
      choose _
        (Hoare-bind _ _ (ask _ _ _ (λ r. refl))
          λ _. Hoare-bind _ _ (wait 1) λ _. uncordon_loop-Stays n id label)
        (ok tt)

  pub uncordon_drained-Stays : (id : String) → Stays (uncordon_drained_storage_node id)
  unfolding uncordon_drained_storage_node
  uncordon_drained-Stays id =
      Hoare-bind {Q = λ _. I} _ _ (Hoare-reads _ (λ t h. h))
        λ label. Hoare-with_rounds _ λ n. uncordon_loop-Stays n id label

  drain_loop-Stays : (n : ℕ) (id label : String) → Stays (drain_loop n id label)
  unfolding drain_loop put_node_drain
  drain_loop-Stays zero id label = halt
  drain_loop-Stays (suc n) id label = Hoare-bind _ _ (node_state-Stays id) λ s.
      choose _ (Hoare-bind _ _ (wait 5) λ _. drain_loop-Stays n id label)
        (choose _ (ok tt) (Hoare-bind _ _ (ask _ _ _ (λ r. refl)) λ _. drain_loop-Stays n id label))

  pub drain-Stays : (id : String) → Stays (drain_storage_node id)
  unfolding drain_storage_node
  drain-Stays id =
      Hoare-bind {Q = λ _. I} _ _ (Hoare-reads _ (λ t h. h))
        λ label. Hoare-with_rounds _ λ n. drain_loop-Stays n id label
