-- ===== src/Upgrade/DataPlane/Quiet.antt =====
-- The calls that change nothing of what the onlooker knows: waiting, listing volumes and nodes,
-- waiting for rebuilds.
use mayastor_extensions.Prelude.{
  ℕ, zero, suc, ℤ, String, Bool, true, false, Option, none, some, List, [], ◌∷◌, if◌then◌else◌,
}
use mayastor_extensions.Upgrade.Models.{Volume, Nexus}
use mayastor_extensions.Upgrade.Env.{Env, Trace}
use mayastor_extensions.Upgrade.Job.{M, pure, stuck, with_rounds, ◌>>=◌, pause}
use mayastor_extensions.Upgrade.Job.Hoare.{
  Hoare, Hoare-bind, Hoare-pure, Hoare-stuck, Hoare-request, Hoare-if, Hoare-pause,
  Hoare-with_rounds,
}
use mayastor_extensions.Effect.Paging.{paginate, Hoare-paginate}
use mayastor_extensions.Upgrade.Rest.{get_volumes, get_nodes}
use mayastor_extensions.Upgrade.Kube.{client, pods_page, nodes_page, list_nodes_metadata}
use mayastor_extensions.Upgrade.Rebuild.{
  max_entries, unhealthy_page, list_unhealthy_volumes, list_all_volumes, RebuildResult, Sweep,
  found, swept, await_rebuild, visit, sweep_target, sweep, after_sweep, after_list, rebuild_rounds,
  rebuild_result, wait_loop, wait_for_rebuild,
}
use mayastor_extensions.Upgrade.DataPlane.Watch.{Watch, Guarded, Sees}

module _ (env : Env) (hash : String) (P : Watch → Type 0) where
  -- `m` keeps what is known, and its calls are in order.
  abbrev pub Quiet : {A : Type 0} → M A → Type 0
  Quiet m = Hoare env (Sees env hash P) m (λ _. Sees env hash P) (Guarded env hash)

  safe : (t : Trace) → Sees env hash P t → Guarded env hash t
  safe t h = h.0

  Quiet-pure : {A : Type 0} (a : A) → Quiet (pure a)
  Quiet-pure a = Hoare-pure a (λ t h. h)

  Quiet-stuck : {A : Type 0} → Quiet {A = A} stuck
  Quiet-stuck = Hoare-stuck safe

  Quiet-bind :
      {A B : Type 0} (m : M A) (f : A → M B) → Quiet m → ((a : A) → Quiet (f a)) → Quiet (m >>= f)
  Quiet-bind m f hm hf = Hoare-bind m f hm hf

  Quiet-pause : (n : ℕ) → Quiet (pause n)
  Quiet-pause n = Hoare-pause n (λ t h. ((tt, h.0), h.1))

  pub Quiet-client : Quiet client
  unfolding client
  Quiet-client = Hoare-request _ _ _ (λ t a h. ((tt, h.0), h.1)) (λ t s h. (tt, h.0))

  pub Quiet-get_nodes : Quiet get_nodes
  unfolding get_nodes
  Quiet-get_nodes = Hoare-request _ _ _ (λ t a h. ((tt, h.0), h.1)) (λ t s h. (tt, h.0))

  Quiet-get_volumes : (n : ℕ) (token : Option ℤ) → Quiet (get_volumes n token)
  unfolding get_volumes
  Quiet-get_volumes n token =
      Quiet-bind _ _ (Hoare-request _ _ _ (λ t a h. ((tt, h.0), h.1)) (λ t s h. (tt, h.0)))
        (λ page. Quiet-pure _)

  pub Quiet-list_all_volumes : Quiet list_all_volumes
  unfolding list_all_volumes
  Quiet-list_all_volumes =
      Hoare-with_rounds _ λ n. Hoare-paginate n _ _ _ (Quiet-get_volumes max_entries) safe

  Quiet-unhealthy_page : (token : Option ℤ) → Quiet (unhealthy_page token)
  unfolding unhealthy_page
  Quiet-unhealthy_page token =
      Quiet-bind _ _ (Quiet-get_volumes max_entries token) (λ page. Quiet-pure _)

  Quiet-list_unhealthy_volumes :
      (discarded : List Volume) → Quiet (list_unhealthy_volumes discarded)
  unfolding list_unhealthy_volumes
  Quiet-list_unhealthy_volumes discarded =
      Quiet-bind _ _ (Hoare-with_rounds _ λ n. Hoare-paginate n _ _ _ Quiet-unhealthy_page safe)
        (λ vs. Quiet-pure _)

  Quiet-if : {A : Type 0} (b : Bool) (m n : M A) → Quiet m → Quiet n → Quiet (if b then m else n)
  Quiet-if b m n hm hn = Hoare-if b m n (λ _. hm) (λ _. hn)

  Quiet-await_rebuild : (n : ℕ) (volume : Volume) → Quiet (await_rebuild n volume)
  unfolding await_rebuild
  Quiet-await_rebuild zero volume = Quiet-pure false
  Quiet-await_rebuild (suc n) volume =
      Quiet-bind _ _ (Quiet-pause 60)
        λ _. Quiet-if _ _ _ (Quiet-pure true) (Quiet-await_rebuild n volume)

  Quiet-visit :
      (node : String) (volume : Volume) (target : Nexus) (over : List String) (stale : List Volume)
      (rest : List String → List Volume → M Sweep)
      → ((over : List String) (stale : List Volume) → Quiet (rest over stale))
      → Quiet (visit node volume target over stale rest)
  unfolding visit
  Quiet-visit node volume target over stale rest h =
      Quiet-if _ _ _
        (Quiet-if _ _ _
          (Quiet-bind _ _ (Quiet-await_rebuild 11 volume)
            λ started. Quiet-if started _ _ (Quiet-pure _) (h _ _))
          (Quiet-pure _))
        (h _ _)

  Quiet-sweep_target :
      (node : String) (volume : Volume) (target : Option Nexus) (over : List String)
      (stale : List Volume) (rest : List String → List Volume → M Sweep)
      → ((over : List String) (stale : List Volume) → Quiet (rest over stale))
      → Quiet (sweep_target node volume target over stale rest)
  unfolding sweep_target
  Quiet-sweep_target node volume none over stale rest h = h over stale
  Quiet-sweep_target node volume (some target) over stale rest h =
      Quiet-visit node volume target over stale rest h

  Quiet-sweep :
      (node : String) (volumes : List Volume) (over : List String) (stale : List Volume)
      → Quiet (sweep node volumes over stale)
  unfolding sweep
  Quiet-sweep node [] over stale = Quiet-pure _
  Quiet-sweep node (volume ∷ volumes) over stale =
      Quiet-sweep_target node volume volume.state.target over stale _ (Quiet-sweep node volumes)

  Quiet-after_sweep :
      (again : List Volume → M RebuildResult) (s : Sweep)
      → ((stale : List Volume) → Quiet (again stale))
      → Quiet (after_sweep again s)
  unfolding after_sweep
  Quiet-after_sweep again (found stale) h = Quiet-pure _
  Quiet-after_sweep again (swept [] stale) h = Quiet-pure _
  Quiet-after_sweep again (swept (node ∷ nodes) stale) h = h stale

  Quiet-after_list :
      (again : List Volume → M RebuildResult) (node : String) (stale unhealthy : List Volume)
      → ((stale : List Volume) → Quiet (again stale))
      → Quiet (after_list again node stale unhealthy)
  unfolding after_list
  Quiet-after_list again node stale [] h = Quiet-pure _
  Quiet-after_list again node stale (volume ∷ volumes) h =
      Quiet-bind _ _ (Quiet-sweep node (volume ∷ volumes) [] stale) λ s. Quiet-after_sweep again s h

  Quiet-rebuild_rounds :
      (n : ℕ) (node : String) (stale : List Volume) → Quiet (rebuild_rounds n node stale)
  unfolding rebuild_rounds
  Quiet-rebuild_rounds zero node stale = Quiet-stuck
  Quiet-rebuild_rounds (suc n) node stale =
      Quiet-bind _ _ (Quiet-list_unhealthy_volumes stale)
        λ unhealthy. Quiet-after_list _ node stale unhealthy (Quiet-rebuild_rounds n node)

  Quiet-rebuild_result : (stale : List Volume) (node : String) → Quiet (rebuild_result stale node)
  unfolding rebuild_result
  Quiet-rebuild_result stale node = Hoare-with_rounds _ λ n. Quiet-rebuild_rounds n node stale

  Quiet-wait_loop : (n : ℕ) (node : String) (stale : List Volume) → Quiet (wait_loop n node stale)
  unfolding wait_loop
  Quiet-wait_loop zero node stale = Quiet-stuck
  Quiet-wait_loop (suc n) node stale = Quiet-bind _ _ (Quiet-rebuild_result stale node) λ rebuild.
      Quiet-if _ _ _
        (Quiet-bind _ _ (Quiet-pause 10) λ _. Quiet-wait_loop n node rebuild.discarded_volumes)
        (Quiet-pure tt)

  pub Quiet-wait_for_rebuild : (node : String) → Quiet (wait_for_rebuild node)
  unfolding wait_for_rebuild
  Quiet-wait_for_rebuild node =
      Quiet-bind _ _ (Quiet-pause 60) λ _. Hoare-with_rounds _ λ n. Quiet-wait_loop n node []

  Quiet-nodes_page : (labels fields token : Option String) → Quiet (nodes_page labels fields token)
  unfolding nodes_page
  Quiet-nodes_page labels fields token = Quiet-bind _ _ Quiet-client λ _.
      Quiet-bind _ _ (Hoare-request _ _ _ (λ t a h. ((tt, h.0), h.1)) (λ t s h. (tt, h.0)))
        λ page. Quiet-pure _

  pub Quiet-list_nodes_metadata :
      (labels fields : Option String) → Quiet (list_nodes_metadata labels fields)
  unfolding list_nodes_metadata
  Quiet-list_nodes_metadata labels fields =
      Hoare-with_rounds _ λ n. Hoare-paginate n _ _ _ (Quiet-nodes_page labels fields) safe

  Quiet-pods_page :
      (namespace : String) (labels fields token : Option String)
      → Quiet (pods_page namespace labels fields token)
  unfolding pods_page
  Quiet-pods_page namespace labels fields token = Quiet-bind _ _ Quiet-client λ _.
      Quiet-bind _ _ (Hoare-request _ _ _ (λ t a h. ((tt, h.0), h.1)) (λ t s h. (tt, h.0)))
        λ page. Quiet-pure _

  -- The pages of a listing, without the note that it is complete.
  pub Quiet-pods :
      (namespace : String) (labels fields : Option String)
      → Quiet (with_rounds λ n. paginate n (pods_page namespace labels fields) none [])
  Quiet-pods namespace labels fields =
      Hoare-with_rounds _ λ n. Hoare-paginate n _ _ _ (Quiet-pods_page namespace labels fields) safe
