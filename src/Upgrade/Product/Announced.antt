-- ===== src/Upgrade/Product/Announced.antt =====
-- The upgrade goes through its phases in order, and announces each of them.
use mayastor_extensions.Prelude.{
  some, String, Bool, true, false, ◌&&◌, ap, none, List, [], ◌∷◌, if◌then◌else◌,
}
use mayastor_extensions.Upgrade.Error.{Error}
use mayastor_extensions.Upgrade.Env.{Env, Event, EventType, Trace, good, normal, warning, send}
use mayastor_extensions.Upgrade.Version.{Version}
use mayastor_extensions.Upgrade.Values.{CoreValues}
use mayastor_extensions.Upgrade.Job.{Outcome, done, failed, pending, M, stuck, fail, pure}
use mayastor_extensions.Upgrade.Job.Hoare.{
  Hoare, Hoare-bind, Hoare-fail, Hoare-if, Hoare-lift, Hoare-pure, Hoare-reads-bind, Hoare-request,
  Hoare-weaken, Post,
}
use mayastor_extensions.Upgrade.Events.{
  EventAction, EventRecorder, successful, upgraded_cp, upgraded_dp, upgrading_cp, upgrading_dp,
  ignore, publish, publish_typed, publish_unrecoverable, to_string,
}
use mayastor_extensions.Upgrade.Helm.Upgrader.{HelmUpgrader, HelmUpgraderBuilder, source_version}
use mayastor_extensions.Upgrade.Product.{
  CliArgs, after_attempt, announce, or_publish, partial_rebuild_check,
  partial_rebuild_disable_required, restart_data_plane, upgrade_product, upgrade_with,
}
use mayastor_extensions.Upgrade.Product.Phases.{
  In, Phased, all_done, cp_done, cp_started, dp_done, dp_started, safe, step-cluster, step-host,
  step-listing,
}
use mayastor_extensions.Upgrade.Product.Listing.{
  latest_controller_revision_hash-Stays, list_pods-Stays,
}
use mayastor_extensions.Upgrade.Product.ControlPlane.{Ready, Ready-send, dry_run-Ready, runner-In}
use mayastor_extensions.Upgrade.Product.Build.{Sound, build-Sound}
use mayastor_extensions.Upgrade.DataPlane.Calls.{upgrade_data_plane-Keep}

-- What `upgrade_product` builds the upgrader from.
abbrev builder_of : CliArgs → HelmUpgraderBuilder
builder_of opts = record {
  release_name = some opts.release_name;
  namespace = some opts.namespace;
  core_chart_dir = some opts.core_chart_dir;
  skip_upgrade_path_validation = opts.skip_upgrade_path_validation;
  helm_args_set = some opts.helm_args_set;
  helm_args_set_file = some opts.helm_args_set_file;
}

module _ (env : Env) where
  -- An event that is sent; what else is known and holds through events stays.
  publish_normal-In :
      (X : Trace → Type 0) (es : List (EventType × String)) (recorder : EventRecorder)
      (message : String) (action : EventAction)
      → ((t : Trace) (e : Event) → X t → X (send e (good tt) ∷ t))
      → Hoare env
          (λ t. In es t × X t)
          (publish_typed normal recorder message action)
          (λ _ t. In ((normal, to_string action) ∷ es) t × X t)
          Phased
  unfolding publish_typed publish
  publish_normal-In X es recorder message action stays =
      Hoare-bind {Q = λ _ t. In es t × X t} _ _ (Hoare-lift _ _ (λ t a e h. h) (λ t h. h.0.0))
        λ note. Hoare-reads-bind _ _ (
          Hoare-request _ _ _
            (λ t a h.
              (((tt, h.0.0), ap (λ l. (normal, to_string action) ∷ l) h.0.1), stays t _ h.1))
            (λ t s h. (tt, h.0.0)))

  announce-In :
      (X : Trace → Type 0) (es : List (EventType × String)) (recorder : EventRecorder)
      (before after : String) (action : EventAction)
      → ((t : Trace) (e : Event) → X t → X (send e (good tt) ∷ t))
      → Hoare env
          (λ t. In es t × X t)
          (announce recorder before after action)
          (λ _ t. In ((normal, to_string action) ∷ es) t × X t)
          Phased
  unfolding announce
  announce-In X es recorder before after action stays =
      Hoare-reads-bind _ _ (publish_normal-In X es recorder _ action stays)

  abbrev Nothing : Trace → Type 0
  Nothing t = Unit {0}

  -- The same when nothing else is to be kept.
  announce-Sent :
      (es : List (EventType × String)) (recorder : EventRecorder) (before after : String)
      (action : EventAction)
      → Hoare env
          (In es)
          (announce recorder before after action)
          (λ _. In ((normal, to_string action) ∷ es))
          Phased
  announce-Sent es recorder before after action =
      Hoare-weaken (λ t h. (h, tt))
        (announce-In Nothing es recorder before after action (λ t e h. tt)) (λ _ t h. h.0)

  warn-Phased :
      (recorder : EventRecorder) (message : String) (action : EventAction)
      → Hoare env Phased (publish_typed warning recorder message action) (λ _. Phased) Phased
  unfolding publish_typed publish
  warn-Phased recorder message action =
      Hoare-bind {Q = λ _. Phased} _ _ (Hoare-lift _ _ (λ t a e h. h) (λ t h. h))
        λ note. Hoare-reads-bind _ _ (Hoare-request _ _ _ (λ t a h. (tt, h)) (λ t s h. (tt, h)))

  ignore-Phased :
      (r : Outcome (Unit {0})) (t : Trace)
      → Post (λ _. Phased) Phased r t
      → let (o, t') = ignore (r, t) in Post (λ _. Phased) Phased o t'
  ignore-Phased (done a) t h = h
  ignore-Phased (failed e) t h = h
  ignore-Phased pending t h = h

  unrecoverable-Phased :
      (recorder : EventRecorder) (e : Error) (validation : Bool)
      → Hoare env Phased (publish_unrecoverable recorder e validation) (λ _. Phased) Phased
  unfolding publish_unrecoverable
  unrecoverable-Phased recorder e validation = record {
    at = λ t h. ignore-Phased _ _ ((warn-Phased recorder _ _).at t h);
  }

  -- A failed attempt is published, which is in any phase.
  or_publish-Phased :
      {A : Type 0} {P : Trace → Type 0} {Q : A → Trace → Type 0} (recorder : EventRecorder)
      (validation : Bool) (m : M A)
      → Hoare env P m Q Phased
      → Hoare env P (or_publish recorder validation m) Q Phased
  unfolding or_publish pure stuck
  or_publish-Phased {A} {P} {Q} recorder validation m hm = record {
    at = λ t h. let (r, t') = m env t in go r t' (hm.at t h);
  }
    where
      go :
          (r : Outcome A) (t : Trace)
          → Post Q Phased r t
          → let (o, t') = after_attempt recorder validation r env t in Post Q Phased o t'
      go (done a) t h = h
      go (failed e) t h =
          (Hoare-bind _ _ (unrecoverable-Phased recorder e validation)
              (λ _. Hoare-fail {P = Phased} {Q = Q} e (λ t h. h))).at
            t h
      go pending t h = h

  partial_rebuild_check-In :
      (es : List (EventType × String)) (v : Version) (enabled : Bool)
      → Hoare env (In es) (partial_rebuild_check v enabled) (λ _. In es) Phased
  unfolding partial_rebuild_check
  partial_rebuild_check-In es v enabled = Hoare-reads-bind _ _ (
      Hoare-reads-bind _ _ (
        Hoare-if (partial_rebuild_disable_required env.semver v && enabled) (fail _) (pure tt)
          (λ _. Hoare-fail _ (safe es)) (λ _. Hoare-pure tt (λ t h. h))))

  restart_data_plane-In :
      (opts : CliArgs) (event : EventRecorder) (v : Version) (values : CoreValues)
      → Hoare env (In cp_done) (restart_data_plane opts event v values) (λ _. In dp_done) Phased
  unfolding restart_data_plane to_string
  restart_data_plane-In opts event v values =
      Hoare-bind _ _ (partial_rebuild_check-In cp_done v _) λ _.
        Hoare-bind _ _
          (latest_controller_revision_hash-Stays env (In cp_done) Phased (safe cp_done)
            (step-listing cp_done) opts.namespace _ none _)
          λ hash.
            Hoare-bind _ _
              (list_pods-Stays env (In cp_done) Phased (safe cp_done) (step-listing cp_done)
                opts.namespace _ none)
              λ pods.
                Hoare-bind _ _ (announce-Sent cp_done event "Upgrading " " data-plane" upgrading_dp)
                  λ _.
                    Hoare-bind _ _
                      (or_publish-Phased event false _ (
                        upgrade_data_plane-Keep env (In dp_started) Phased (safe dp_started)
                          step-cluster opts.namespace opts.rest_endpoint hash _ _ pods))
                      λ _. announce-Sent dp_started event "Upgraded " " data-plane" upgraded_dp

  upgrade_with-In :
      (opts : CliArgs) (event : EventRecorder) (b : HelmUpgraderBuilder) (u : HelmUpgrader)
      → Sound env b u
      → Hoare env
          (In [])
          (upgrade_with opts event u)
          (λ _. In (all_done opts.skip_data_plane_restart))
          Phased
  unfolding upgrade_with to_string
  upgrade_with-In opts event b u sound =
      Hoare-bind _ _ (or_publish-Phased event true _ (dry_run-Ready env b u sound)) λ _.
        Hoare-bind _ _
          (announce-In (Ready env u) [] event "Starting " " upgrade..." upgrading_cp
            (Ready-send env u))
          λ _.
            Hoare-bind _ _
              (announce-In (Ready env u) ((normal, "Upgrading control-plane") ∷ []) event
                "Upgrading " " control-plane" upgrading_cp (Ready-send env u))
              λ _. Hoare-bind _ _ (or_publish-Phased event false _ (runner-In env u)) λ values.
                Hoare-bind _ _
                  (announce-Sent cp_started event "Upgraded " " control-plane" upgraded_cp)
                  λ _.
                    Hoare-bind
                      {Q = λ _. In (if opts.skip_data_plane_restart then cp_done else dp_done)} _ _
                      (restart_if opts.skip_data_plane_restart
                        (restart_data_plane-In opts event (source_version u) values))
                      λ _. announce-Sent _ event "Successfully upgraded " "" successful
    where
      restart_if :
          {m : M (Unit {0})} (b : Bool)
          → Hoare env (In cp_done) m (λ _. In dp_done) Phased
          → Hoare env
              (In cp_done)
              (if b then pure tt else m)
              (λ _. In (if b then cp_done else dp_done))
              Phased
      restart_if true h = Hoare-pure tt (λ t h. h)
      restart_if false h = h

  pub upgrade_product-In :
      (opts : CliArgs) (event : EventRecorder)
      → Hoare env
          (In [])
          (upgrade_product opts event)
          (λ _. In (all_done opts.skip_data_plane_restart))
          Phased
  unfolding upgrade_product
  upgrade_product-In opts event =
      Hoare-bind {Q = λ u t. Sound env (builder_of opts) u × In [] t} _ _
        (build-Sound env (In []) Phased (safe []) (step-host []) (builder_of opts))
        λ u. record {
          at = λ t h.
              (Hoare-reads-bind _ _ (upgrade_with-In opts _ (builder_of opts) u h.0)).at t h.1;
        }
