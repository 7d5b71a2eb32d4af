-- ===== src/Upgrade/Rebuild/Verdict.antt =====
-- The loop of `rebuild_result` over the unhealthy volumes, against a description without the loop.
use mayastor_extensions.Prelude.{
  ℕ, zero, suc, String, Bool, true, false, not, ◌||◌, ◌≡◌, refl, sym, ap, ◌∙◌, Option, none, some,
  List, [], ◌∷◌, ◌++◌, any, ◌==◌, str_eq, if◌then◌else◌, arith,
}
use mathlib.Core.List.{append_assoc, append-nil}
use mayastor_extensions.Upgrade.Models.{Volume, Nexus}
use mayastor_extensions.Upgrade.Env.{Env, Trace, sleep}
use mayastor_extensions.Upgrade.Job.{done, pure, continue, ◌>>=◌, pause}
use mayastor_extensions.Upgrade.Rebuild.{
  replica_rebuild_count, topology_nodes, Sweep, found, swept, await_rebuild, visit, sweep_target,
  sweep,
}

-- The volumes that have a target, with it.
attach : Volume → Option Nexus → List (Volume × Nexus) → List (Volume × Nexus)
attach v none rest = rest
attach v (some target) rest = (v, target) ∷ rest

unfoldable pub with_target : List Volume → List (Volume × Nexus)
unfolding attach
with_target [] = []
with_target (v ∷ vs) = attach v v.state.target (with_target vs)

-- The nodes that a volume lies on: its target's and its replicas'.
abbrev nodes_of : Volume × Nexus → List String
nodes_of (v, target) = target.node ∷ topology_nodes v.state.replica_topology

abbrev pub touches : String → Volume × Nexus → Bool
touches node vt = any (str_eq node) (nodes_of vt)

-- From the first volume that lies on the node on.
unfoldable pub from_first : String → List (Volume × Nexus) → List (Volume × Nexus)
from_first node [] = []
from_first node (vt ∷ vts) =
    let rest = from_first node vts in if touches node vt then vt ∷ vts else rest

-- The volumes before the first one that is rebuilding.
unfoldable pub idle_part : List (Volume × Nexus) → List Volume
idle_part [] = []
idle_part ((v, target) ∷ vts) =
    let rest = idle_part vts in if replica_rebuild_count v == 0 then v ∷ rest else []

abbrev is_busy : Volume × Nexus → Bool
is_busy (v, target) = not (replica_rebuild_count v == 0)

abbrev pub all_nodes : List (Volume × Nexus) → List String → List String
all_nodes [] over = over
all_nodes (vt ∷ vts) over = all_nodes vts (nodes_of vt ++ over)

abbrev pub verdict : List (Volume × Nexus) → List String → List Volume → Sweep
verdict watched over stale =
    if any is_busy watched
    then found (stale ++ idle_part watched)
    else swept over (stale ++ idle_part watched)

-- So many minutes later.
abbrev minutes : ℕ → Trace → Trace
minutes zero t = t
minutes (suc n) t = minutes n (sleep 60 ∷ t)

-- Eleven minutes for each of the volumes.
abbrev pub waits : List Volume → Trace → Trace
waits [] t = t
waits (v ∷ vs) t = waits vs (minutes 11 t)

module _ (env : Env) where
  -- The wait for a rebuild to start looks at the volume it already has: it ends without one, after
  -- all its minutes, whatever the cluster does meanwhile.
  await_rebuild-idle :
      (n : ℕ) (volume : Volume) (t : Trace)
      → replica_rebuild_count volume ≡ 0
      → await_rebuild n volume env t ≡ (done false, minutes n t)
  unfolding await_rebuild ◌>>=◌ pause
  await_rebuild-idle zero volume t e = refl
  await_rebuild-idle (suc n) volume t e = rw e (await_rebuild-idle n volume (sleep 60 ∷ t) e)

  any-append : (p : String → Bool) (xs ys : List String) → any p (xs ++ ys) ≡ (any p xs || any p ys)
  any-append p [] ys = refl
  any-append p (x ∷ xs) ys = ground (arith, any-append p xs ys)

  -- The rest of the loop, once a volume was on the node.
  abbrev Seen : String → List Volume → Type 0
  Seen node vs =
      (over : List String) (stale : List Volume) (t : Trace)
      → any (str_eq node) over ≡ true
      → sweep node vs over stale env t ≡ (
        done (verdict (with_target vs) (all_nodes (with_target vs) over) stale),
        waits (idle_part (with_target vs)) t,
      )

  visit-Seen :
      (node : String) (vs : List Volume) (v : Volume) (target : Nexus) (over : List String)
      (stale : List Volume) (t : Trace)
      → Seen node vs
      → any (str_eq node) (nodes_of (v, target) ++ over) ≡ true
      → visit node v target over stale (sweep node vs) env t ≡ (
        done (
            verdict
              ((v, target) ∷ with_target vs)
              (all_nodes (with_target vs) (nodes_of (v, target) ++ over))
              stale),
        waits (idle_part ((v, target) ∷ with_target vs)) t,
      )
  unfolding visit idle_part ◌>>=◌
  visit-Seen node vs v target over stale t seen h = count_case _ refl
    where
      count_case :
          (b : Bool)
          → (replica_rebuild_count v == 0) ≡ b
          → visit node v target over stale (sweep node vs) env t ≡ (
            done (
                verdict
                  ((v, target) ∷ with_target vs)
                  (all_nodes (with_target vs) (nodes_of (v, target) ++ over))
                  stale),
            waits (idle_part ((v, target) ∷ with_target vs)) t,
          )
      count_case true e =
          rw (h, e)
            (ap
                (λ r.
                  continue r.0
                    (λ started.
                      if started
                      then pure (found stale)
                      else sweep node vs (nodes_of (v, target) ++ over) (stale ++ v ∷ []))
                    env r.1)
                (await_rebuild-idle 11 v t (ground (arith, e)))
              ∙ seen _ (stale ++ v ∷ []) (minutes 11 t) h
              ∙ ap
                  (λ l. (
                    done (
                        if any is_busy (with_target vs)
                        then found l
                        else swept (all_nodes (with_target vs) (nodes_of (v, target) ++ over)) l),
                    waits (idle_part (with_target vs)) (minutes 11 t),
                  ))
                  (append_assoc stale (v ∷ []) (idle_part (with_target vs))))
      count_case false e = rw (h, e) (ap (λ l. (done (found l), t)) (sym (append-nil stale)))

  sweep-Seen : (node : String) (vs : List Volume) → Seen node vs
  unfolding sweep sweep_target with_target attach idle_part ◌>>=◌
  sweep-Seen node [] over stale t h = ap (λ l. (done (swept over l), t)) (sym (append-nil stale))
  sweep-Seen node (v ∷ vs) over stale t h = target_case (sweep-Seen node vs) v.state.target
    where
      target_case :
          Seen node vs
          → (target : Option Nexus)
          → sweep_target node v target over stale (sweep node vs) env t ≡ (
            done (
                verdict
                  (attach v target (with_target vs))
                  (all_nodes (attach v target (with_target vs)) over)
                  stale),
            waits (idle_part (attach v target (with_target vs))) t,
          )
      target_case seen none = seen over stale t h
      target_case seen (some target) =
          visit-Seen node vs v target over stale t seen
            (ground (arith, h, any-append (str_eq node) (nodes_of (v, target)) over))

  -- The loop while no volume was on the node.
  abbrev Unseen : String → List Volume → List Volume → Trace → Type 0
  Unseen node vs stale t =
      (over : List String)
      → any (str_eq node) over ≡ false
      → sweep node vs over stale env t ≡ (
        done (verdict (from_first node (with_target vs)) (all_nodes (with_target vs) over) stale),
        waits (idle_part (from_first node (with_target vs))) t,
      )

  visit-Unseen :
      (node : String) (vs : List Volume) (v : Volume) (target : Nexus) (over : List String)
      (stale : List Volume) (t : Trace)
      → Unseen node vs stale t
      → any (str_eq node) over ≡ false
      → (b : Bool) → touches node (v, target) ≡ b
      → visit node v target over stale (sweep node vs) env t ≡ (
        done (
            verdict
              (from_first node ((v, target) ∷ with_target vs))
              (all_nodes (with_target vs) (nodes_of (v, target) ++ over))
              stale),
        waits (idle_part (from_first node ((v, target) ∷ with_target vs))) t,
      )
  unfolding visit from_first
  visit-Unseen node vs v target over stale t unseen h true e = rw e (
      visit-Seen node vs v target over stale t (sweep-Seen node vs)
        (ground (arith, e, any-append (str_eq node) (nodes_of (v, target)) over)))
  visit-Unseen node vs v target over stale t unseen h false e = rw (e, off_node) (unseen _ off_node)
    where
      off_node : any (str_eq node) (nodes_of (v, target) ++ over) ≡ false
      off_node = ground (arith, e, h, any-append (str_eq node) (nodes_of (v, target)) over)

  -- One pass of the loop over the unhealthy volumes: it leaves alone the volumes without a target and
  -- those before the first one that lies on the node; from that one on, it gives up on each volume
  -- without a rebuild after eleven minutes, on the listing's word alone, whether or not it lies on
  -- the node, and stops with "rebuilding" at the first one with a rebuild.
  sweep-Unseen :
      (node : String) (vs : List Volume) (stale : List Volume) (t : Trace) → Unseen node vs stale t
  unfolding sweep sweep_target with_target attach from_first idle_part ◌>>=◌
  sweep-Unseen node [] stale t over h = ap (λ l. (done (swept over l), t)) (sym (append-nil stale))
  sweep-Unseen node (v ∷ vs) stale t over h =
      target_case (sweep-Unseen node vs stale t) v.state.target
    where
      target_case :
          Unseen node vs stale t
          → (target : Option Nexus)
          → sweep_target node v target over stale (sweep node vs) env t ≡ (
            done (
                verdict
                  (from_first node (attach v target (with_target vs)))
                  (all_nodes (attach v target (with_target vs)) over)
                  stale),
            waits (idle_part (from_first node (attach v target (with_target vs)))) t,
          )
      target_case unseen none = unseen over h
      target_case unseen (some target) = visit-Unseen node vs v target over stale t unseen h _ refl

-- One pass of `rebuild_result` over the unhealthy volumes, with the verdict written without a loop.
-- It looks at the volumes that have a target, from the first one that lies on the node on (by its
-- target or a replica), whether or not the later ones lie there too. If one of these has a rebuild
-- in the listing, the pass answers "rebuilding"; it has then given up on the volumes before that
-- one, and otherwise on all of them, after exactly eleven sleeps of a minute for each. No reply of
-- the cluster in that time plays a part.
pub sweep-verdict :
    (env : Env) (node : String) (volumes stale : List Volume) (t : Trace)
    → let watched = from_first node (with_target volumes) in
      sweep node volumes [] stale env t ≡ (
        done (verdict watched (all_nodes (with_target volumes) []) stale),
        waits (idle_part watched) t,
      )
sweep-verdict env node volumes stale t = sweep-Unseen env node volumes stale t [] refl
