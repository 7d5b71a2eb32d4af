-- ===== src/Upgrade/Product/Failures.antt =====
-- The refusals and failures of upgrade.rs, and what is told of them.
use Prim.Native.Nat.{Ordering}
use mayastor_extensions.Prelude.{
  String, Bool, true, false, ◌≡◌, ◌≢◌, refl, ap, ◌∙◌, ◌⊎◌, inl, inr, List, ◌∷◌, arith, str_append,
  if◌then◌else◌, Bool-cases, none, some,
}
use mayastor_extensions.Effect.Run.{bind_done}
use mayastor_extensions.Upgrade.Error.{Error, partial_rebuild_not_allowed}
use mayastor_extensions.Upgrade.Models.{Pod}
use mayastor_extensions.Upgrade.Env.{Env, Reply, Trace, send, good, bad, warning}
use mayastor_extensions.Upgrade.Version.{Version, release}
use mayastor_extensions.Upgrade.Version.Order.{ge_iff, le_iff}
use mayastor_extensions.Upgrade.Values.{CoreValues}
use mayastor_extensions.Upgrade.Job.{done, failed, M, answer, continue, pure, fail, ◌>>=◌}
use mayastor_extensions.Upgrade.Kube.{latest_controller_revision_hash, list_pods}
use mayastor_extensions.Upgrade.DataPlane.{upgrade_data_plane, without_hash}
use mayastor_extensions.Upgrade.Events.{
  EventRecorder, event_of, ignore, note_of, publish, publish_typed, publish_unrecoverable,
  to_string, upgraded_cp, upgrading_cp, upgrading_dp,
}
use mayastor_extensions.Upgrade.Helm.Upgrader.{HelmUpgrader, dry_run, runner, source_version}
use mayastor_extensions.Upgrade.Product.{
  CliArgs, announce, or_publish, partial_rebuild_check, partial_rebuild_disable_required,
  restart_data_plane, upgrade_with,
}

-- From 2.2.0 to 2.5.0.
abbrev pub Within : Env → Version → Type 0
Within env source =
    (env.semver.cmp source (release 2 2 0) ≢ Ordering.lt)
    × (env.semver.cmp source (release 2 5 0) ≢ Ordering.gt)

required-Within :
    (env : Env) (source : Version)
    → partial_rebuild_disable_required env.semver source ≡ true
    → Within env source
required-Within env source h = (
  (ge_iff env.semver source (release 2 2 0)).0 (ground (arith, h)),
  (le_iff env.semver source (release 2 5 0)).0 (ground (arith, h)),
)

Within-required :
    (env : Env) (source : Version)
    → Within env source
    → partial_rebuild_disable_required env.semver source ≡ true
Within-required env source (lower, upper) =
    rw
      (
        (ge_iff env.semver source (release 2 2 0)).1 lower,
        (le_iff env.semver source (release 2 5 0)).1 upper,
      )
      refl

-- If the source version is from 2.2.0 to 2.5.0 and partial rebuild is enabled, the data plane is left
-- alone: its restart fails at once, before any call, with an error that names the two versions, and
-- the failure itself sends no event. In every other case the check before the restart passes, and
-- makes no call either.
pub restart_data_plane-Within :
    (env : Env) (opts : CliArgs) (event : EventRecorder) (source : Version) (values : CoreValues)
    (t : Trace)
    → let enabled = values.partial_rebuild_is_enabled ≡ true in
      ((Within env source × enabled)
        × (restart_data_plane opts event source values env t ≡ (
          failed (
              partial_rebuild_not_allowed env.product_name
                (env.semver.to_string (release 2 2 0))
                (env.semver.to_string (release 2 5 0))),
          t,
        )))
      ⊎ ((¬ (Within env source × enabled))
          × (partial_rebuild_check source values.partial_rebuild_is_enabled env t ≡ (done tt, t)))
unfolding restart_data_plane partial_rebuild_check ◌>>=◌
restart_data_plane-Within env opts event source values t =
    elim (Bool-cases (partial_rebuild_disable_required env.semver source)) [
      | inl required ↦ elim (Bool-cases values.partial_rebuild_is_enabled) [
        | inl enabled ↦
            inl ((required-Within env source required, enabled), rw (required, enabled) refl)
        | inr disabled ↦ inr ((λ h. cc (h.1, disabled)), rw (required, disabled) refl)
      ]
      | inr other ↦ inr ((λ h. cc (Within-required env source h.0, other)), rw other refl)
    ]

module _ (env : Env) (opts : CliArgs) (event : EventRecorder) (u : HelmUpgrader) (t : Trace) where
  -- The attempt that fails, with its error, the calls up to then, and the action of its warning.
  pub data FailsAt : Error → Trace → String → Type 0 where
    at_dry_run :
        {e : Error} {t' : Trace}
        → dry_run u env t ≡ (failed e, t')
        → FailsAt e t' "Validation Failed"
    at_control_plane :
        {e : Error} {t₁ t₂ t₃ t' : Trace}
        → dry_run u env t ≡ (done tt, t₁)
        → announce event "Starting " " upgrade..." upgrading_cp env t₁ ≡ (done tt, t₂)
        → announce event "Upgrading " " control-plane" upgrading_cp env t₂ ≡ (done tt, t₃)
        → runner u env t₃ ≡ (failed e, t')
        → FailsAt e t' "Failed"
    at_data_plane :
        {e : Error} {t₁ t₂ t₃ t₄ t₅ t₆ t₇ t₈ t' : Trace} {values : CoreValues} {hash : String}
        {pods : List Pod}
        → opts.skip_data_plane_restart ≡ false
        → dry_run u env t ≡ (done tt, t₁)
        → announce event "Starting " " upgrade..." upgrading_cp env t₁ ≡ (done tt, t₂)
        → announce event "Upgrading " " control-plane" upgrading_cp env t₂ ≡ (done tt, t₃)
        → runner u env t₃ ≡ (done values, t₄)
        → announce event "Upgraded " " control-plane" upgraded_cp env t₄ ≡ (done tt, t₅)
        → ¬ (Within env (source_version u) × (values.partial_rebuild_is_enabled ≡ true))
        → latest_controller_revision_hash opts.namespace
            (some "app=io-engine")
            none
            "controller-revision-hash"
            env
            t₅
          ≡ (done hash, t₆)
        → list_pods opts.namespace (some (without_hash hash)) none env t₆ ≡ (done pods, t₇)
        → announce event "Upgrading " " data-plane" upgrading_dp env t₇ ≡ (done tt, t₈)
        → upgrade_data_plane opts.namespace opts.rest_endpoint hash values.ha_is_enabled
            (without_hash hash)
            pods
            env
            t₈
          ≡ (failed e, t')
        → FailsAt e t' "Failed"

module _ {A B : Type 0} (env : Env) where
  -- `?` on an error
  bind_failed :
      (m : M A) (f : A → M B) (t t' : Trace) (e : Error)
      → m env t ≡ (failed e, t')
      → (m >>= f) env t ≡ (failed e, t')
  unfolding ◌>>=◌
  bind_failed m f t t' e h = ap (λ r. continue r.0 f env r.1) h

or_publish-done :
    {A : Type 0} (env : Env) (event : EventRecorder) (validation : Bool) (m : M A) (t t' : Trace)
    (a : A)
    → m env t ≡ (done a, t')
    → or_publish event validation m env t ≡ (done a, t')
unfolding or_publish ◌>>=◌
or_publish-done env event validation m t t' a h = rw h refl

-- Whether the event could be sent makes no difference.
ignored :
    {A : Type 0} (env : Env) (e : Error) (context : String → Error) (r : Reply (Unit {0}))
    (t : Trace)
    → let (o, t') = ignore (answer context r t) in
      continue o (λ _. fail {A = A} e) env t' ≡ (failed e, t)
unfolding fail
ignored env e context (good a) t = refl
ignored env e context (bad s) t = refl

-- An attempt that fails: its error, after one warning.
or_publish-failed :
    {A : Type 0} (env : Env) (event : EventRecorder) (validation : Bool) (m : M A) (e : Error)
    (t t' : Trace) (note : String)
    → m env t ≡ (failed e, t')
    → env.note_json (note_of event (str_append "Failed to upgrade: " (env.display e))) ≡ good note
    → let warn = event_of env warning note (if validation then "Validation Failed" else "Failed") in
      or_publish event validation m env t ≡ (failed e, send warn (env.send t' warn) ∷ t')
unfolding or_publish publish_unrecoverable publish_typed publish to_string ◌>>=◌
or_publish-failed env event true m e t t' note fails json = rw (fails, json) (ignored env e _ _ _)
or_publish-failed env event false m e t t' note fails json = rw (fails, json) (ignored env e _ _ _)

-- A failure after the dry run.
module _ (env : Env) (opts : CliArgs) (event : EventRecorder) (u : HelmUpgrader) where
  -- If an attempt of the upgrade fails (the dry run, the upgrade of the control plane by helm or the
  -- upgrade of the data plane, each after everything before it went well), then the upgrade returns
  -- the attempt's error, and its last call sends one warning: with the action "Validation Failed" for
  -- the dry run and "Failed" for the other two, and whether or not the warning can be sent. The note of
  -- the warning is taken to be serialisable.
  pub upgrade_with-failed :
      {e : Error} {t t' : Trace} {action note : String}
      → FailsAt env opts event u t e t' action
      → env.note_json (note_of event (str_append "Failed to upgrade: " (env.display e))) ≡ good note
      → let warn = event_of env warning note action in
        upgrade_with opts event u env t ≡ (failed e, send warn (env.send t' warn) ∷ t')
  unfolding upgrade_with restart_data_plane
  upgrade_with-failed {t = t} (at_dry_run h) json =
      bind_failed env _ _ t _ _ (or_publish-failed env event true _ _ _ _ _ h json)
  upgrade_with-failed {t = t} (at_control_plane h h₁ h₂ h₃) json =
      bind_done _ _ env t _ tt (or_publish-done env event true _ _ _ tt h)
      ∙ bind_done _ _ env _ _ tt h₁
      ∙ bind_done _ _ env _ _ tt h₂
      ∙ bind_failed env _ _ _ _ _ (or_publish-failed env event false _ _ _ _ _ h₃ json)
  upgrade_with-failed {t = t}
        (at_data_plane {t₅ = t₅} {values = values} skip h h₁ h₂ h₃ h₄ allowed h₅ h₆ h₇ h₈) json =
      bind_done _ _ env t _ tt (or_publish-done env event true _ _ _ tt h)
      ∙ bind_done _ _ env _ _ tt h₁
      ∙ bind_done _ _ env _ _ tt h₂
      ∙ bind_done _ _ env _ _ values (or_publish-done env event false _ _ _ values h₃)
      ∙ bind_done _ _ env _ _ tt h₄
      ∙ bind_failed env _ _ _ _ _ (
          ap
            (λ b.
              (if b then pure tt else restart_data_plane opts event (source_version u) values) env
                t₅)
            skip
          ∙ bind_done _ _ env _ _ tt (passes allowed)
          ∙ bind_done _ _ env _ _ _ h₅
          ∙ bind_done _ _ env _ _ _ h₆
          ∙ bind_done _ _ env _ _ tt h₇
          ∙ bind_failed env _ _ _ _ _ (or_publish-failed env event false _ _ _ _ _ h₈ json))
    where
      passes :
          ¬ (Within env (source_version u) × (values.partial_rebuild_is_enabled ≡ true))
          → {t : Trace}
          → partial_rebuild_check (source_version u) values.partial_rebuild_is_enabled env t
            ≡ (done tt, t)
      passes allowed {t} =
          elim (restart_data_plane-Within env opts event (source_version u) values t) [
            | inl p ↦ absurd (allowed p.0)
            | inr p ↦ p.1
          ]
