-- ===== src/Upgrade/Product/ControlPlane.antt =====
-- The helm upgrade of the control plane: first the dry run, then the real one.
use mayastor_extensions.Prelude.{String, true, false, ◌≡◌, refl, none, some, List, [], ◌∷◌, ◌++◌}
use mayastor_extensions.Upgrade.Env.{Env, Reply, Event, Output, Trace, good, bad, helm, send}
use mayastor_extensions.Upgrade.Job.Hoare.{
  Hoare, Hoare-bind, Hoare-ensure, Hoare-if, Hoare-lift, Hoare-pure, Hoare-request, Hoare-weaken,
}
use mayastor_extensions.Upgrade.Helm.Client.{HelmReleaseClient, run_helm, upgrade, upgrade_args}
use mayastor_extensions.Upgrade.Helm.Upgrader.{
  CoreHelmUpgrader, HelmUpgraderBuilder, HelmUpgrader, core, core_values_of, dry_run, runner,
  umbrella, umbrella_values_of,
}
use mayastor_extensions.Upgrade.Product.Kinds.{is_real_upgrade}
use mayastor_extensions.Upgrade.Product.Phases.{DryRan, In, Phased, cp_started, safe, step-host}
use mayastor_extensions.Upgrade.Product.Host.{get_values_as_yaml-Stays}
use mayastor_extensions.Upgrade.Product.Build.{Args, Sound}

module _ (env : Env) where
  -- The dry run of what is going to be run for real.
  abbrev pub Ready : HelmUpgrader → Trace → Type 0
  Ready (umbrella u) t = Unit {0}
  Ready (core u) t =
      u.already_upgraded ≡ false
      → DryRan (upgrade_args u.client u.release_name u.chart_dir u.helm_upgrade_extra_args) t

  pub Ready-send :
      (u : HelmUpgrader) (t : Trace) (e : Event) → Ready u t → Ready u (send e (good tt) ∷ t)
  Ready-send (umbrella u) t e h = tt
  Ready-send (core u) t e h = h

  dry_upgrade-not_real :
      (b : HelmUpgraderBuilder) (u : CoreHelmUpgrader)
      → Args b.helm_args_set b.helm_args_set_file u.helm_upgrade_extra_args
      → is_real_upgrade (
          upgrade_args u.client u.release_name u.chart_dir
            (u.helm_upgrade_extra_args ++ "--dry-run" ∷ []))
        ≡ false
  dry_upgrade-not_real b u args = rw args.written refl

  upgrade-rule :
      {P Q : Trace → Type 0} (c : HelmReleaseClient) (name dir : String) (args : List String)
      → ((t : Trace) (r : Reply Output) → P t → Phased (helm (upgrade_args c name dir args) r ∷ t))
      → ((t : Trace) (output : Output)
          → output.success ≡ true
          → P t
          → Q (helm (upgrade_args c name dir args) (good output) ∷ t))
      → Hoare env P (upgrade c name dir (some args)) (λ _. Q) Phased
  unfolding upgrade run_helm
  upgrade-rule {P} {Q} c name dir args phased ok =
      Hoare-bind {Q = λ _. Q} _ _
        (Hoare-bind {Q = λ output t. (output.success ≡ true → Q t) × Phased t} _ _
          (Hoare-request (λ env t. env.helm t (upgrade_args c name dir args))
            (helm (upgrade_args c name dir args)) _
            (λ t output h. ((λ s. ok t output s h), phased t (good output) h))
            (λ t s h. phased t (bad s) h))
          λ output.
            Hoare-bind {Q = λ _. Q} _ _
              (Hoare-ensure output.success _ (λ s t h. h.0 s) (λ t h. h.1))
              λ _. Hoare-pure _ (λ t h. h))
        λ _. Hoare-pure tt (λ t h. h)

  pub dry_run-Ready :
      (b : HelmUpgraderBuilder) (u : HelmUpgrader)
      → Sound env b u
      → Hoare env (In []) (dry_run u) (λ _ t. In [] t × Ready u t) Phased
  unfolding dry_run
  dry_run-Ready b (umbrella u) sound = Hoare-pure tt (λ t h. (h, tt))
  dry_run-Ready b (core u) sound =
      Hoare-if u.already_upgraded _ _ (λ y. Hoare-pure tt (λ t h. (h, λ n. absurd (cc (y, n)))))
        (λ n.
          upgrade-rule u.client u.release_name u.chart_dir
            (u.helm_upgrade_extra_args ++ "--dry-run" ∷ [])
            (λ t r h. ((λ real. absurd (cc (real, dry_upgrade-not_real b u sound.2))), h.0))
            (λ t output s h. (
              (((λ real. absurd (cc (real, dry_upgrade-not_real b u sound.2))), h.0), h.1),
              λ _. (refl, s),
            )))

  pub runner-In :
      (u : HelmUpgrader)
      → Hoare env (λ t. In cp_started t × Ready u t) (runner u) (λ _. In cp_started) Phased
  unfolding runner core_values_of umbrella_values_of
  runner-In (umbrella u) =
      Hoare-bind {Q = λ _. In cp_started} _ _
        (Hoare-weaken (λ t h. h.0)
          (get_values_as_yaml-Stays env (In cp_started) Phased (safe cp_started)
            (step-host cp_started) _ _ none)
          (λ _ t h. h))
        λ buf. Hoare-lift _ _ (λ t a e h. h) (safe cp_started)
  runner-In (core u) =
      Hoare-if u.already_upgraded _ _ (λ y. Hoare-pure _ (λ t h. h.0))
        (λ n.
          Hoare-bind {Q = λ _. In cp_started} _ _
            (upgrade-rule u.client u.release_name u.chart_dir u.helm_upgrade_extra_args
              (λ t r h. ((λ _. (h.0.1, h.1 n)), h.0.0))
              (λ t output s h. (((λ _. (h.0.1, h.1 n)), h.0.0), h.0.1)))
            λ _.
              Hoare-bind {Q = λ _. In cp_started} _ _
                (get_values_as_yaml-Stays env (In cp_started) Phased (safe cp_started)
                  (step-host cp_started) _ _ none)
                λ buf. Hoare-lift _ _ (λ t a e h. h) (safe cp_started))
