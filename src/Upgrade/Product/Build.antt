-- ===== src/Upgrade/Product/Build.antt =====
-- `HelmUpgraderBuilder::build`: what is known of the upgrader that it returns.
use Prim.Native.Nat.{Ordering}
use mayastor_extensions.Prelude.{
  String, Bool, true, false, ◌≡◌, ◌≢◌, refl, ◌↔◌, Option, none, some, List, [], ◌∷◌, arith,
}
use mayastor_extensions.Upgrade.Env.{Env, Trace, Call, good}
use mayastor_extensions.Upgrade.Version.{Version, eq}
use mayastor_extensions.Upgrade.Version.Order.{
  Unlisted, contains_version-Unlisted, eq_order_iff, ge_iff,
}
use mayastor_extensions.Upgrade.Job.Hoare.{
  Hoare, Hoare-bind, Hoare-ensure, Hoare-fail, Hoare-frame, Hoare-if, Hoare-lift, Hoare-ok_or,
  Hoare-pure, Hoare-reads-bind,
}
use mayastor_extensions.Upgrade.Path.{is_valid_for_core_chart}
use mayastor_extensions.Upgrade.Helm.Upgrader.{
  HelmUpgrader, HelmUpgraderBuilder, Inputs, build, build_core, build_umbrella, build_variant, core,
  core_values_of, core_values_of_file, gather, or_empty, umbrella, validate_path,
}
use mayastor_extensions.Upgrade.Product.Kinds.{is_host}
use mayastor_extensions.Upgrade.Product.Host
use mayastor_extensions.Upgrade.Product.Host.{
  get_values_as_yaml-Stays, release_info-Stays, version_from_chart_yaml_file-Stays,
  version_from_release_chart-Stays,
}
use mayastor_extensions.Upgrade.Product.Edits.{generate_values_yaml_file-Stays}

-- The target is not older than the source, and the source is not listed as unsupported.
abbrev PathOk : Env → Version → Version → Type 0
PathOk env source target =
    (env.semver.cmp target source ≢ Ordering.lt)
    × ((l : List Version) × (env.parse_unsupported_versions ≡ good l)
        × Unlisted env.semver l source)

-- What the user gave, or nothing.
abbrev given : Option String → String
given none = ""
given (some text) = text

-- The arguments of `helm upgrade` end like this: with a values file, and with what the user gave for
-- `--set` and `--set-file`.
pub record Args (args_set args_set_file : Option String) (args : List String) : Type 0 where
  pub file : String
  pub written :
      args
      ≡ "-f"
        ∷ file
        ∷ "--set"
        ∷ given args_set
        ∷ "--set-file"
        ∷ given args_set_file
        ∷ "--atomic"
        ∷ []

abbrev pub Sound : Env → HelmUpgraderBuilder → HelmUpgrader → Type 0
Sound env b (core u) =
    (b.skip_upgrade_path_validation ≡ false → PathOk env u.source_version u.target_version)
    × ((u.already_upgraded ≡ true)
        ↔ (env.semver.cmp u.target_version u.source_version ≡ Ordering.eq))
    × Args b.helm_args_set b.helm_args_set_file u.helm_upgrade_extra_args
Sound env b (umbrella u) = env.semver.cmp u.target_version u.source_version ≡ Ordering.eq

given-or_empty : (o : Option String) → or_empty o ≡ given o
given-or_empty none = refl
given-or_empty (some text) = refl

module _ (env : Env) (I E : Trace → Type 0) (safe : (t : Trace) → I t → E t)
    (step : (t : Trace) (c : Call) → is_host c ≡ true → I t → I (c ∷ t)) where
  validate_path-PathOk :
      (skip : Bool) (source target : Version)
      → Hoare env I
          (validate_path skip source target)
          (λ _ t. (skip ≡ false → PathOk env source target) × I t)
          E
  unfolding validate_path is_valid_for_core_chart
  validate_path-PathOk skip source target =
      Hoare-if skip _ _ (λ y. Hoare-pure tt (λ t h. ((λ n. absurd (cc (y, n))), h)))
        (λ _. Hoare-reads-bind _ _ (
          Hoare-bind {Q = λ _ t. (env.semver.cmp target source ≢ Ordering.lt) × I t} _ _
            (Hoare-ensure _ _ (λ e t h. ((ge_iff env.semver target source).0 e, h)) safe)
            λ _.
              Hoare-bind {Q = λ b t. (b ≡ true → PathOk env source target) × I t} _ _
                (Hoare-bind
                  {Q = λ l t.
                    ((env.semver.cmp target source ≢ Ordering.lt)
                      × (env.parse_unsupported_versions ≡ good l))
                    × I t}
                  _ _ (Hoare-lift _ _ (λ t l e h. ((h.0, e), h.1)) (λ t h. safe t h.1))
                  λ l. Hoare-reads-bind _ _ (
                    Hoare-pure _ (λ t h. (
                      (λ b. (
                        h.0.0,
                        (
                          l,
                          h.0.1,
                          contains_version-Unlisted env.semver source l (ground (arith, b)),
                        ),
                      )),
                      h.1,
                    ))))
                λ valid. Hoare-ensure valid _ (λ b t h. ((λ _. h.0 b), h.1)) (λ t h. safe t h.1)))

  gather-Stays : (b : HelmUpgraderBuilder) → Host.Stays env I E safe step (gather b)
  unfolding gather
  gather-Stays b =
      Hoare-bind {Q = λ _. I} _ _ (Hoare-ok_or b.release_name _ (λ t a e h. h) safe) λ release_name.
        Hoare-bind {Q = λ _. I} _ _ (Hoare-ok_or b.namespace _ (λ t a e h. h) safe) λ namespace.
          Hoare-reads-bind _ _ (
            Hoare-bind {Q = λ _. I} _ _ (Hoare-ok_or b.core_chart_dir _ (λ t a e h. h) safe)
              λ chart_dir.
                Hoare-bind _ _ (release_info-Stays env I E safe step _ release_name) λ release.
                  Hoare-bind _ _ (version_from_release_chart-Stays env I E safe step release.chart)
                    λ source.
                      Hoare-bind _ _
                        (get_values_as_yaml-Stays env I E safe step _ release_name none)
                        λ buf.
                          Hoare-bind _ _ (version_from_chart_yaml_file-Stays env I E safe step _)
                            λ target. Hoare-pure _ (λ t h. h))

  build_core-Sound :
      (b : HelmUpgraderBuilder) (i : Inputs)
      → Hoare env I
          (build_core (eq env.semver i.target_version i.source_version) b i)
          (λ u t. Sound env b u × I t)
          E
  unfolding build_core core_values_of core_values_of_file
  build_core-Sound b i =
      Hoare-bind _ _
        (validate_path-PathOk b.skip_upgrade_path_validation i.source_version i.target_version)
        λ _.
          Hoare-bind
            {Q = λ _ t.
              (b.skip_upgrade_path_validation ≡ false
                → PathOk env i.source_version i.target_version)
              × I t}
            _ _
            (Hoare-frame (
              Hoare-bind {Q = λ _. I} _ _ (Host.ask env I E safe step _ _ _ (λ r. refl))
                λ buf. Host.parsed env I E safe step _ _))
            λ target.
              Hoare-bind
                {Q = λ _ t.
                  (b.skip_upgrade_path_validation ≡ false
                    → PathOk env i.source_version i.target_version)
                  × I t}
                _ _ (Hoare-lift _ _ (λ t a e h. h) (λ t h. safe t h.1))
                λ source.
                  Hoare-bind
                    {Q = λ _ t.
                      (b.skip_upgrade_path_validation ≡ false
                        → PathOk env i.source_version i.target_version)
                      × I t}
                    _ _
                    (Hoare-frame
                      (generate_values_yaml_file-Stays env I E safe step _ _ source target _ _ _))
                    λ file. Hoare-pure _ (λ t h. (
                      (
                        h.0,
                        eq_order_iff env.semver i.target_version i.source_version,
                        record {
                          file = file;
                          written = λ k.
                              "-f"
                              ∷ file
                              ∷ "--set"
                              ∷ given-or_empty b.helm_args_set k
                              ∷ "--set-file"
                              ∷ given-or_empty b.helm_args_set_file k
                              ∷ "--atomic"
                              ∷ [];
                        },
                      ),
                      h.1,
                    ))

  build_variant-Sound :
      (is_umbrella is_core : Bool) (b : HelmUpgraderBuilder) (i : Inputs)
      → Hoare env I
          (build_variant is_umbrella is_core (eq env.semver i.target_version i.source_version) b i)
          (λ u t. Sound env b u × I t)
          E
  unfolding build_variant build_umbrella
  build_variant-Sound true is_core b i =
      Hoare-bind {Q = λ _ t. (env.semver.cmp i.target_version i.source_version ≡ Ordering.eq) × I t}
        _ _
        (Hoare-ensure _ _
          (λ e t h. ((eq_order_iff env.semver i.target_version i.source_version).0 e, h)) safe)
        λ _. Hoare-pure _ (λ t h. h)
  build_variant-Sound false true b i = build_core-Sound b i
  build_variant-Sound false false b i = Hoare-fail _ safe

  pub build-Sound : (b : HelmUpgraderBuilder) → Hoare env I (build b) (λ u t. Sound env b u × I t) E
  unfolding build
  build-Sound b = Hoare-bind _ _ (gather-Stays b) λ i.
      Hoare-reads-bind _ _
        (Hoare-reads-bind _ _ (Hoare-reads-bind _ _ (build_variant-Sound _ _ b i)))
