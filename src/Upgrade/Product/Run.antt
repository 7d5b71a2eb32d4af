-- ===== src/Upgrade/Product/Run.antt =====
-- What a whole run of the upgrade guarantees, whatever helm, Kubernetes and the storage answer.
use mayastor_extensions.Prelude.{String, ◌≡◌, refl, Option, none, some, List, [], ◌∷◌, str_eq}
use mayastor_extensions.Upgrade.Env.{Env, OwnerReference}
use mayastor_extensions.Upgrade.Job.{done, M, pure, fail}
use mayastor_extensions.Upgrade.Job.Hoare.{
  Hoare, Hoare-bind, Hoare-fail, Hoare-if, Hoare-pure, Post-always, Post-done,
}
use mayastor_extensions.Upgrade.Events
use mayastor_extensions.Upgrade.Kube.{client}
use mayastor_extensions.Upgrade.Events.{
  EventAction, event_of, ignore, note_of, publish, publish_typed, publish_unrecoverable, to_string,
  EventRecorder, EventRecorderBuilder, options, pod_owner,
}
use mayastor_extensions.Upgrade.Helm.Upgrader.{HelmUpgrader, HelmUpgraderBuilder}
use mayastor_extensions.Upgrade.Helm.Upgrader
use mayastor_extensions.Upgrade.Product.{CliArgs, upgrade}
use mayastor_extensions.Upgrade.Product.Host
use mayastor_extensions.Upgrade.Product.Host.{listing-host}
use mayastor_extensions.Upgrade.Product.Listing.{client-Stays}
use mayastor_extensions.Upgrade.Product.Phases.{In, Phased, all_done, safe, sent, step-host}
use mayastor_extensions.Upgrade.Product.Build.{Sound, build-Sound}
use mayastor_extensions.Upgrade.Product.Announced.{upgrade_product-In}

module _ (env : Env) where
  abbrev Starts : {A : Type 0} → M A → Type 0
  Starts m = Host.Stays env (In []) Phased (safe []) (step-host []) m

  client-Starts : Starts client
  client-Starts =
      client-Stays env (In []) Phased (safe []) (λ t c k h. step-host [] t c (listing-host c k) h)

  pod_owner-Starts :
      (pod namespace : String) (owners : Option (List OwnerReference))
      → Starts (pod_owner pod namespace owners)
  unfolding pod_owner
  pod_owner-Starts pod namespace none = Hoare-fail _ (safe [])
  pod_owner-Starts pod namespace (some []) = Hoare-fail _ (safe [])
  pod_owner-Starts pod namespace (some (owner ∷ [])) =
      Hoare-if (str_eq owner.kind "Job") (pure owner) (fail _) (λ _. Hoare-pure _ (λ t h. h))
        (λ _. Hoare-fail _ (safe []))
  pod_owner-Starts pod namespace (some (owner ∷ other ∷ more)) = Hoare-fail _ (safe [])

  options-Starts : (a b : Option String) → Starts (options a b)
  unfolding options
  options-Starts (some a) (some b) = Hoare-pure _ (λ t h. h)
  options-Starts (some a) none = Hoare-fail _ (safe [])
  options-Starts none b = Hoare-fail _ (safe [])

  recorder-Starts : (b : EventRecorderBuilder) → Starts (Events.build b)
  unfolding Events.build
  recorder-Starts b = Hoare-bind _ _ (options-Starts b.pod_name b.namespace) λ names.
      Hoare-bind _ _ client-Starts λ _.
        Hoare-bind _ _ (Host.ask env (In []) Phased (safe []) (step-host []) _ _ _ (λ r. refl))
          λ owners.
            Hoare-bind _ _ (pod_owner-Starts names.0 names.1 owners)
              λ _. Hoare-bind _ _ client-Starts λ _. Hoare-pure _ (λ t h. h)

  upgrade-In :
      (opts : CliArgs)
      → Hoare env (In []) (upgrade opts) (λ _. In (all_done opts.skip_data_plane_restart)) Phased
  unfolding upgrade
  upgrade-In opts = Hoare-bind _ _ (recorder-Starts _) (upgrade_product-In env opts)

-- However a run of `upgrade` ends, every call in it belongs to its phase: the real `helm upgrade` is
-- only made right after its own dry run succeeded, with the same arguments and no other call but the
-- two events that announce the upgrade of the control plane; cordons, their removal, drains and the
-- deletion of Pods are only made when the events up to "Upgrading data-plane" have been sent, and no
-- other.
pub upgrade-Phased : (env : Env) (opts : CliArgs) → Phased (upgrade opts env []).1
upgrade-Phased env opts =
    let (r, t) = upgrade opts env [] in
    Post-always r t (λ _ t h. h.0) ((upgrade-In env opts).at [] (tt, refl))

-- When `upgrade` returns without an error, exactly the events of all its phases were sent, each once
-- and in order ("Upgrading control-plane" twice), all of them normal; those of the data plane if and
-- only if its restart was not skipped.
pub upgrade-Announced :
    (env : Env) (opts : CliArgs)
    → (upgrade opts env []).0 ≡ done tt
    → sent (upgrade opts env []).1 ≡ all_done opts.skip_data_plane_restart
upgrade-Announced env opts e =
    let (r, t) = upgrade opts env [] in
    (Post-done (λ _. In (all_done opts.skip_data_plane_restart)) Phased r t tt e
      ((upgrade-In env opts).at [] (tt, refl))).1

-- An upgrader that `build` returns for the core chart was checked, unless the user skipped it: the
-- target's version is not below the source's, and the source's equals none in the list of unsupported
-- versions. It counts as upgraded exactly if the two versions are equal. Its arguments for helm are
-- `-f` with a file, `--set` and `--set-file` with what the builder was given for them (nothing, if it
-- was given none), and `--atomic`. One for the umbrella chart is only returned if the installed
-- version equals the target's.
pub build-Validated :
    (env : Env) (builder : HelmUpgraderBuilder) (u : HelmUpgrader)
    → (Upgrader.build builder env []).0 ≡ done u
    → Sound env builder u
build-Validated env builder u e =
    let (r, t) = Upgrader.build builder env [] in
    (Post-done (λ u t. Sound env builder u × In [] t) Phased r t u e
      ((build-Sound env (In []) Phased (safe []) (step-host []) builder).at [] (tt, refl))).0
