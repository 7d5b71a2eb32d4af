-- ===== src/Upgrade/Rebuild/Busy.antt =====
-- `rebuild_result` while the unhealthy volumes lie on other nodes.
use mayastor_extensions.Prelude.{
  ℕ, zero, suc, String, false, ◌≡◌, refl, ap, ◌∙◌, List, [], ◌∷◌, any, arith,
}
use mathlib.Core.List.{append-nil}
use mayastor_extensions.Upgrade.Models.{Volume, Nexus}
use mayastor_extensions.Upgrade.Env.{Env, Trace}
use mayastor_extensions.Upgrade.Job.{done, pending, M, continue, ◌>>=◌}
use mayastor_extensions.Upgrade.Rebuild.{
  list_unhealthy_volumes, swept, sweep, after_sweep, after_list, rebuild_rounds, RebuildResult,
}
use mayastor_extensions.Upgrade.Rebuild.Verdict.{
  with_target, touches, from_first, idle_part, all_nodes, sweep-verdict,
}

from_first-off_node :
    (node : String) (vts : List (Volume × Nexus))
    → any (touches node) vts ≡ false
    → from_first node vts ≡ []
unfolding from_first
from_first-off_node node [] h = refl
from_first-off_node node (vt ∷ vts) h =
    ground (arith, h, from_first-off_node node vts (ground (arith, h)))

-- A listing that never changes: it holds unhealthy volumes with a target, none of them on the node.
pub record Elsewhere (env : Env) (node : String) (stale : List Volume) (first : Volume × Nexus)
    (behind : List (Volume × Nexus)) (volumes : List Volume) : Type 0 where
  pub listed : (t : Trace) → (list_unhealthy_volumes stale env t).0 ≡ done volumes
  pub targets : with_target volumes ≡ first ∷ behind
  pub off_node : any (touches node) (first ∷ behind) ≡ false

after_sweep-again :
    (again : List Volume → M RebuildResult) (stale : List Volume) (vts : List (Volume × Nexus))
    (node : String) (over : List String)
    → after_sweep again (swept (all_nodes vts (node ∷ over)) stale) ≡ again stale
unfolding after_sweep
after_sweep-again again stale [] node over = refl
after_sweep-again again stale (vt ∷ vts) node over = after_sweep-again again stale vts _ _

-- Off the node, a pass gives up on no volume and takes no time.
sweep-off_node :
    (env : Env) (node : String) (volumes stale : List Volume) (t : Trace)
    → from_first node (with_target volumes) ≡ []
    → sweep node volumes [] stale env t
      ≡ (done (swept (all_nodes (with_target volumes) []) stale), t)
unfolding idle_part
sweep-off_node env node volumes stale t e =
    sweep-verdict env node volumes stale t
    ∙ rw e (ap (λ l. (done (swept (all_nodes (with_target volumes) []) l), t)) (append-nil stale))

module _ (env : Env) (node : String) (stale : List Volume) (first : Volume × Nexus)
    (behind : List (Volume × Nexus)) where
  after_list-again :
      (again : List Volume → M RebuildResult) (volumes : List Volume) (t : Trace)
      → with_target volumes ≡ first ∷ behind
      → any (touches node) (first ∷ behind) ≡ false
      → after_list again node stale volumes env t ≡ again stale env t
  unfolding after_list with_target ◌>>=◌
  after_list-again again [] t targets off = absurd (cc targets)
  after_list-again again (v ∷ vs) t targets off =
      ap (λ r. continue r.0 (after_sweep again) env r.1)
        (sweep-off_node env node (v ∷ vs) stale t (from_first-off_node node _ (rw targets off)))
      ∙ ap (λ vts. after_sweep again (swept (all_nodes vts []) stale) env t) targets
      ∙ ap (λ m. m env t) (after_sweep-again again stale behind _ _)

  -- If the listing of the unhealthy volumes never changes, some of them have a target, and none that
  -- has one lies on the node, then `rebuild_result` asks for the listing again and again: it does not
  -- return in any number of rounds.
  pub rebuild_rounds-never :
      (volumes : List Volume)
      → Elsewhere env node stale first behind volumes
      → (n : ℕ) (t : Trace) → (rebuild_rounds n node stale env t).0 ≡ pending
  unfolding rebuild_rounds ◌>>=◌
  rebuild_rounds-never volumes h zero t = refl
  rebuild_rounds-never volumes h (suc n) t =
      let (r, t') = list_unhealthy_volumes stale env t in
      ap (λ r. (continue r (after_list (rebuild_rounds n node) node stale) env t').0) (h.listed t)
      ∙ ap (λ p. p.0) (after_list-again (rebuild_rounds n node) volumes t' h.targets h.off_node)
      ∙ rebuild_rounds-never volumes h n t'
