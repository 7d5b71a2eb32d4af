-- ===== src/Upgrade/DataPlane/Finish.antt =====
-- The outer loop of the data-plane upgrade ends only on an empty listing.
use mayastor_extensions.Prelude.{
  ℕ, zero, suc, String, Bool, ◌≡◌, refl, Option, none, some, List, [], ◌∷◌,
}
use mayastor_extensions.Upgrade.Models.{Pod}
use mayastor_extensions.Upgrade.Env.{Env, Trace, Call, pods_listed}
use mayastor_extensions.Upgrade.Job.{Outcome, done, failed, pending, M, for_each}
use mayastor_extensions.Upgrade.Job.Hoare.{
  Post, Hoare, Hoare-bind, Hoare-pure, Hoare-stuck, Hoare-with_rounds, Post-done,
}
use mayastor_extensions.Upgrade.Kube.{list_pods, note_pods}
use mayastor_extensions.Upgrade.DataPlane.{
  pods_round, upgrade_rounds, upgrade_all, upgrade_pod, upgrade_data_plane,
}

module _ (env : Env) where
  abbrev Anything : Trace → Type 0
  Anything t = Unit {0}

  Hoare-any : {A : Type 0} (m : M A) → Hoare env Anything m (λ _. Anything) Anything
  Hoare-any {A} m = record { at = λ t h. let (r, t') = m env t in go r t' }
    where
      go : (r : Outcome A) (t : Trace) → Post (λ _. Anything) Anything r t
      go (done a) t = tt
      go (failed e) t = tt
      go pending t = tt

  -- The last call was a complete listing, and it held `pods`.
  abbrev Listed : String → List Pod → Trace → Type 0
  Listed label pods [] = ⊥
  Listed label pods (call ∷ t) = call ≡ pods_listed (some label) none pods

  list_pods-Listed :
      (namespace label : String)
      → Hoare env Anything (list_pods namespace (some label) none) (Listed label) Anything
  unfolding list_pods
  list_pods-Listed namespace label = Hoare-bind _ _ (Hoare-any _) (λ pods. note-Listed pods)
    where
      note-Listed :
          (pods : List Pod)
          → Hoare env Anything (note_pods (some label) none pods) (Listed label) Anything
      note-Listed pods = record { at = λ t h. refl }

  upgrade_rounds-Listed :
      (n : ℕ) (namespace : String) (ha : Bool) (hash label : String)
      → Hoare env Anything
          (upgrade_rounds n namespace ha hash label)
          (λ _. Listed label [])
          Anything
  unfolding upgrade_rounds pods_round
  upgrade_rounds-Listed zero namespace ha hash label = Hoare-stuck (λ t h. tt)
  upgrade_rounds-Listed (suc n) namespace ha hash label =
      Hoare-bind _ _ (list_pods-Listed namespace label) (
        round (λ pods. for_each pods (upgrade_pod namespace ha hash))
          (upgrade_rounds-Listed n namespace ha hash label))
    where
      round :
          {again : M (Unit {0})} (body : List Pod → M (Unit {0}))
          → Hoare env Anything again (λ _. Listed label []) Anything
          → (pods : List Pod)
          → Hoare env
              (Listed label pods)
              (pods_round again body pods)
              (λ _. Listed label [])
              Anything
      round body h [] = Hoare-pure tt (λ t h. h)
      round body h (pod ∷ pods) =
          Hoare-bind {Q = λ _. Anything} _ _
            (record { at = λ t p. (Hoare-any (body (pod ∷ pods))).at t tt }) (λ _. h)

  upgrade_all-Listed :
      (namespace rest_endpoint hash : String) (ha : Bool) (label : String)
      → Hoare env Anything
          (upgrade_all namespace rest_endpoint hash ha label)
          (λ _. Listed label [])
          Anything
  unfolding upgrade_all
  upgrade_all-Listed namespace rest_endpoint hash ha label = Hoare-bind _ _ (Hoare-any _) λ _.
      Hoare-bind _ _ (Hoare-any _) λ nodes.
        Hoare-bind _ _ (Hoare-any _)
          λ _. Hoare-with_rounds _ λ n. upgrade_rounds-Listed n namespace ha hash label

abbrev pub latest_call : Trace → Option Call
latest_call [] = none
latest_call (call ∷ t) = some call

-- If `upgrade_data_plane` is given at least one Pod to upgrade and returns without an error, then
-- the last thing it did was to list the Pods with the label of those still to upgrade, completely,
-- and there was none.
pub upgrade_data_plane-none_left :
    (env : Env) (namespace rest_endpoint hash : String) (ha_is_enabled : Bool) (left_label : String)
    (pod : Pod) (pods : List Pod)
    → (upgrade_data_plane namespace rest_endpoint hash ha_is_enabled left_label
        (pod ∷ pods)
        env
        []).0
      ≡ done tt
    → latest_call
        (upgrade_data_plane namespace rest_endpoint hash ha_is_enabled left_label
          (pod ∷ pods)
          env
          []).1
      ≡ some (pods_listed (some left_label) none [])
unfolding upgrade_data_plane
upgrade_data_plane-none_left env namespace rest_endpoint hash ha label pod pods e =
    let (r, t) = upgrade_all namespace rest_endpoint hash ha label env [] in
    go t (
      Post-done (λ _. Listed env label []) (Anything env) r t tt e
        ((upgrade_all-Listed env namespace rest_endpoint hash ha label).at [] tt))
  where
    go :
        (t : Trace)
        → Listed env label [] t
        → latest_call t ≡ some (pods_listed (some label) none [])
    go [] h = absurd h
    go (call ∷ t) h = cc
