-- ===== src/Upgrade/DataPlane/Nodes.antt =====
-- Cordons and drains: what is known of the drained node before and after each of them.
use mayastor_extensions.Prelude.{
  ℕ, zero, suc, String, Bool, true, false, ◌≡◌, refl, Option, none, List, [], ◌∷◌, arith, eq_iff,
}
use mayastor_extensions.Upgrade.Models.{CordonDrainState}
use mayastor_extensions.Upgrade.Env.{Env}
use mayastor_extensions.Upgrade.Constants.{drain_for_upgrade}
use mayastor_extensions.Upgrade.Job.{M}
use mayastor_extensions.Upgrade.Job.Hoare.{
  Hoare, Hoare-bind, Hoare-pure, Hoare-stuck, Hoare-request, Hoare-ok_or, Hoare-if, Hoare-pause,
  Hoare-reads-bind, Hoare-with_rounds,
}
use mayastor_extensions.Upgrade.Rest.{get_node, put_node_cordon, delete_node_cordon, put_node_drain}
use mayastor_extensions.Upgrade.Cordon.{
  is_cordoned, is_draining, is_drained, node_state, cordon_storage_node, uncordon_storage_node,
  uncordon_loop, uncordon_drained_storage_node, drain_loop, drain_storage_node,
}
use mayastor_extensions.Upgrade.DataPlane.Watch.{
  Watch, Guarded, Sees, FreeFor, forget, look, spec_state,
}

forget-FreeFor : (id : String) (d : List String) → FreeFor d id → forget id d ≡ []
forget-FreeFor id [] h = refl
forget-FreeFor id (x ∷ d) h = rw (forget-FreeFor id d h.1) (ground (arith, eq_iff x id, h.0))

look-FreeFor :
    (b : Bool) (id : String) (d : List String)
    → FreeFor d id
    → FreeFor (look b id d) id × (b ≡ false → look b id d ≡ [])
look-FreeFor true id d h = ((refl, h), λ e. cc)
look-FreeFor false id d h = (rw (forget-FreeFor id d h) tt, λ e. forget-FreeFor id d h)

module _ (env : Env) (hash : String) (R : Watch → Type 0)
    (ignores : (w : Watch) (d : List String) → R w → R (record w { drained = d })) where
  -- No other node than `id` is drained, and `R`.
  abbrev Near : String → Watch → Type 0
  Near id w = R w × FreeFor w.drained id

  -- The node `id` was just seen in this state.
  abbrev Saw : String → Option CordonDrainState → Watch → Type 0
  Saw id state w =
      R w
      × FreeFor w.drained id
      × (is_drained (drain_for_upgrade env) state ≡ false → w.drained ≡ [])

  node_state-Saw :
      (id : String)
      → Hoare env
          (Sees env hash (Near id))
          (node_state id)
          (λ s. Sees env hash (Saw id s))
          (Guarded env hash)
  unfolding node_state get_node
  node_state-Saw id =
      Hoare-bind {Q = λ node. Sees env hash (Saw id (spec_state node.spec))} _ _
        (Hoare-request _ _ _
          (λ t node h.
            let l =
              look-FreeFor (is_drained (drain_for_upgrade env) (spec_state node.spec)) id _ h.1.1 in
            ((tt, h.0), (ignores _ _ h.1.0, l.0, l.1)))
          (λ t s h. (tt, h.0)))
        λ node.
          Hoare-bind {Q = λ spec. Sees env hash (Saw id spec.cordondrainstate)} _ _
            (Hoare-ok_or node.spec _ (λ t spec e h. (h.0, (h.1.0, h.1.1, λ f. h.1.2 (rw e f))))
              (λ t h. h.0))
            λ spec. Hoare-pure _ (λ t h. h)

  -- `m` needs no more than that no other node is drained, and leaves it so.
  abbrev pub KeepsNear : {A : Type 0} → String → M A → Type 0
  KeepsNear id m =
      Hoare env (Sees env hash (Near id)) m (λ _. Sees env hash (Near id)) (Guarded env hash)

  pub cordon-KeepsNear : (id label : String) → KeepsNear id (cordon_storage_node id label)
  unfolding cordon_storage_node put_node_cordon
  cordon-KeepsNear id label = Hoare-bind _ _ (node_state-Saw id) λ state.
      Hoare-if (is_cordoned label state) _ _ (λ _. Hoare-pure tt (λ t h. (h.0, (h.1.0, h.1.1))))
        (λ _. Hoare-request _ _ _ (λ t a h. ((tt, h.0), (h.1.0, h.1.1))) (λ t s h. (tt, h.0)))

  pub uncordon-KeepsNear : (id label : String) → KeepsNear id (uncordon_storage_node id label)
  unfolding uncordon_storage_node delete_node_cordon
  uncordon-KeepsNear id label = Hoare-bind _ _ (node_state-Saw id) λ state.
      Hoare-if (is_cordoned label state) _ _
        (λ _. Hoare-request _ _ _ (λ t a h. ((tt, h.0), (h.1.0, h.1.1))) (λ t s h. (tt, h.0)))
        (λ _. Hoare-pure tt (λ t h. (h.0, (h.1.0, h.1.1))))

  -- No node is drained, and `R`.
  abbrev Undrained : Watch → Type 0
  Undrained w = R w × (w.drained ≡ [])

  -- `m` leaves no node drained.
  abbrev Undrains : String → M (Unit {0}) → Type 0
  Undrains id m =
      Hoare env (Sees env hash (Near id)) m (λ _. Sees env hash Undrained) (Guarded env hash)

  uncordon_loop-Undrains :
      (n : ℕ) (id : String) → Undrains id (uncordon_loop n id (drain_for_upgrade env))
  unfolding uncordon_loop delete_node_cordon
  uncordon_loop-Undrains zero id = Hoare-stuck (λ t h. h.0)
  uncordon_loop-Undrains (suc n) id = Hoare-bind _ _ (node_state-Saw id) λ state.
      Hoare-if (is_drained (drain_for_upgrade env) state) _ _
        (λ _.
          Hoare-bind {Q = λ _. Sees env hash (Near id)} _ _
            (Hoare-request _ _ _ (λ t a h. ((tt, h.0), (h.1.0, h.1.1))) (λ t s h. (tt, h.0)))
            λ _.
              Hoare-bind {Q = λ _. Sees env hash (Near id)} _ _
                (Hoare-pause 1 (λ t h. ((tt, h.0), h.1))) λ _. uncordon_loop-Undrains n id)
        (λ clear. Hoare-pure tt (λ t h. (h.0, (h.1.0, h.1.2 clear))))

  -- The drain label of the upgrade is removed until the node is seen without it.
  pub uncordon_drained-Undrains : (id : String) → Undrains id (uncordon_drained_storage_node id)
  unfolding uncordon_drained_storage_node
  uncordon_drained-Undrains id =
      Hoare-reads-bind _ _ (Hoare-with_rounds _ λ n. uncordon_loop-Undrains n id)

  module _ (calm : (w : Watch) → R w → w.restarting ≡ none) where
    drain_loop-KeepsNear :
        (n : ℕ) (id : String) → KeepsNear id (drain_loop n id (drain_for_upgrade env))
    unfolding drain_loop put_node_drain
    drain_loop-KeepsNear zero id = Hoare-stuck (λ t h. h.0)
    drain_loop-KeepsNear (suc n) id = Hoare-bind _ _ (node_state-Saw id) λ state.
        Hoare-if (is_draining (drain_for_upgrade env) state) _ _
          (λ _.
            Hoare-bind {Q = λ _. Sees env hash (Near id)} _ _
              (Hoare-pause 5 (λ t h. ((tt, h.0), (h.1.0, h.1.1)))) λ _. drain_loop-KeepsNear n id)
          (λ _.
            Hoare-if (is_drained (drain_for_upgrade env) state) _ _
              (λ _. Hoare-pure tt (λ t h. (h.0, (h.1.0, h.1.1))))
              (λ _.
                Hoare-bind {Q = λ _. Sees env hash (Near id)} _ _
                  (Hoare-request _ _ _ (λ t a h. (((calm _ h.1.0, h.1.1), h.0), (h.1.0, h.1.1)))
                    (λ t s h. ((calm _ h.1.0, h.1.1), h.0)))
                  λ _. drain_loop-KeepsNear n id))

    -- A drain is in order while no Pod is being replaced.
    pub drain-KeepsNear : (id : String) → KeepsNear id (drain_storage_node id)
    unfolding drain_storage_node
    drain-KeepsNear id = Hoare-reads-bind _ _ (Hoare-with_rounds _ λ n. drain_loop-KeepsNear n id)
