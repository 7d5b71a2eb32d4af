-- ===== src/Upgrade/Rebuild.antt =====
-- Volumes and rebuilds: `list_unhealthy_volumes`, `replica_rebuild_count`, `rebuild_result` and
-- `list_all_volumes` of k8s/upgrade/src/bin/upgrade-job/upgrade/utils.rs, and `wait_for_rebuild` of
-- upgrade/data_plane.rs.
pub mod Verdict
pub mod Busy
use mayastor_extensions.Prelude.{
  ℕ, zero, suc, ℤ, pos, String, Bool, true, false, not, Option, none, some, List, [], ◌∷◌, ◌++◌,
  any, keep, count_if, ltb, ◌==◌, str_eq, if◌then◌else◌,
}
use mayastor_extensions.Upgrade.Models.{
  Volume, VolumeStatus, unknown, online, degraded, faulted, shutdown, Child, Nexus, ReplicaTopology,
  volume_eq,
}
use mayastor_extensions.Upgrade.Job.{M, pure, stuck, with_rounds, ◌>>=◌, ◌>>◌, pause}
use mayastor_extensions.Effect.Paging.{paginate}
use mayastor_extensions.Upgrade.Rest.{get_volumes}

abbrev pub max_entries : ℕ
max_entries = 200

unfoldable is_unhealthy : VolumeStatus → Bool
is_unhealthy faulted = true
is_unhealthy degraded = true
is_unhealthy _ = false

-- `volumes.contains(volume)`
abbrev contains_volume : List Volume → Volume → Bool
contains_volume volumes volume = any (volume_eq volume) volumes

unfoldable pub unhealthy_page : Option ℤ → M (List Volume × Option ℤ)
unfolding is_unhealthy
unhealthy_page token = do
  page ← get_volumes max_entries token
  pure (keep (λ v. is_unhealthy v.state.status) page.0, page.1)

unfoldable pub list_unhealthy_volumes : List Volume → M (List Volume)
unfolding unhealthy_page
list_unhealthy_volumes discarded = do
  unhealthy ← with_rounds λ n. paginate n unhealthy_page (some (pos 0)) []
  pure (keep (λ v. not (contains_volume discarded v)) unhealthy)

unfoldable pub list_all_volumes : M (List Volume)
list_all_volumes = with_rounds λ n. paginate n (get_volumes max_entries) (some (pos 0)) []

abbrev is_some {ℓ} : {A : Type ℓ} → Option A → Bool
is_some none = false
is_some (some _) = true

abbrev rebuild_count_of : Option Nexus → ℕ
rebuild_count_of none = 0
rebuild_count_of (some target) = count_if (λ c. is_some c.rebuild_progress) target.children

unfoldable pub replica_rebuild_count : Volume → ℕ
replica_rebuild_count volume = rebuild_count_of volume.state.target

pub record RebuildResult : Type 0 where
  pub rebuilding : Bool
  pub discarded_volumes : List Volume

unfoldable add_node : Option String → List String → List String
add_node none nodes = nodes
add_node (some node) nodes = node ∷ nodes

-- The nodes of the replicas, as far as they are known.
unfoldable pub topology_nodes : List (String × ReplicaTopology) → List String
unfolding add_node
topology_nodes [] = []
topology_nodes ((_, topology) ∷ rest) = add_node topology.node (topology_nodes rest)

-- What the loop over the unhealthy volumes leaves: a rebuild in progress, or the nodes that it went
-- over and the volumes that it gave up on.
pub data Sweep : Type 0 where
  found : List Volume → Sweep
  swept : List String → List Volume → Sweep

-- `for _i in 0 .. 11`: the count is taken again of the same volume.
unfoldable pub await_rebuild : ℕ → Volume → M Bool
await_rebuild zero volume = pure false
await_rebuild (suc n) volume = do
  pause 60
  if ltb 0 (replica_rebuild_count volume) then pure true else await_rebuild n volume

-- A volume with a target; `rest` goes on with the volumes behind it.
unfoldable pub visit :
    String
    → Volume
    → Nexus
    → List String
    → List Volume
    → (List String → List Volume → M Sweep)
    → M Sweep
unfolding topology_nodes replica_rebuild_count
visit node volume target over stale rest =
    let over' = target.node ∷ (topology_nodes volume.state.replica_topology ++ over) in
    if any (str_eq node) over'
    then if replica_rebuild_count volume == 0
      then (do
        started ← await_rebuild 11 volume
        if started then pure (found stale) else rest over' (stale ++ volume ∷ []))
      else pure (found stale)
    else rest over' stale

unfoldable pub sweep_target :
    String
    → Volume
    → Option Nexus
    → List String
    → List Volume
    → (List String → List Volume → M Sweep)
    → M Sweep
unfolding visit
sweep_target node volume none over stale rest = rest over stale
sweep_target node volume (some target) over stale rest = visit node volume target over stale rest

unfoldable pub sweep : String → List Volume → List String → List Volume → M Sweep
unfolding sweep_target
sweep node [] over stale = pure (swept over stale)
sweep node (volume ∷ volumes) over stale =
    sweep_target node volume volume.state.target over stale (sweep node volumes)

unfoldable pub after_sweep : (List Volume → M RebuildResult) → Sweep → M RebuildResult
after_sweep again (found stale) = pure (record { rebuilding = true; discarded_volumes = stale })
after_sweep again (swept [] stale) = pure (record { rebuilding = false; discarded_volumes = stale })
after_sweep again (swept (node ∷ nodes) stale) = again stale

unfoldable pub after_list :
    (List Volume → M RebuildResult) → String → List Volume → List Volume → M RebuildResult
unfolding after_sweep
after_list again node stale [] = pure (record { rebuilding = false; discarded_volumes = stale })
after_list again node stale (volume ∷ volumes) =
    sweep node (volume ∷ volumes) [] stale >>= after_sweep again

-- The outer `loop`; `stale_volumes` is passed on as `discarded_volumes` of the result.
unfoldable pub rebuild_rounds : ℕ → String → List Volume → M RebuildResult
unfolding after_list
rebuild_rounds zero node stale = stuck
rebuild_rounds (suc n) node stale = do
  unhealthy ← list_unhealthy_volumes stale
  after_list (rebuild_rounds n node) node stale unhealthy

unfoldable pub rebuild_result : List Volume → String → M RebuildResult
rebuild_result stale node = with_rounds λ n. rebuild_rounds n node stale

unfoldable pub wait_loop : ℕ → String → List Volume → M (Unit {0})
wait_loop zero node stale = stuck
wait_loop (suc n) node stale = do
  rebuild ← rebuild_result stale node
  if rebuild.rebuilding then (do pause 10; wait_loop n node rebuild.discarded_volumes) else pure tt

unfoldable pub wait_for_rebuild : String → M (Unit {0})
unfolding wait_loop
wait_for_rebuild node = do pause 60; with_rounds λ n. wait_loop n node []
