-- ===== src/Upgrade/Opts/Chart.antt =====
-- Which directories the check of the chart directory accepts.
use mayastor_extensions.Prelude.{String, Bool, true, false, ◌≡◌, refl, ◌↔◌, ◌∷◌, str_eq}
use mayastor_extensions.Effect.{Reply, good, bad}
use mayastor_extensions.Upgrade.Error.{Error}
use mayastor_extensions.Upgrade.Env.{Call, Env, Trace}
use mayastor_extensions.Upgrade.Env as Job
use mayastor_extensions.Upgrade.Constants.{core_chart_name}
use mayastor_extensions.Upgrade.Path.{join}
use mayastor_extensions.Upgrade.Job.{M, done, ensure, lift, pure, reads, request, ◌>>=◌, ◌>>◌}
use mayastor_extensions.Upgrade.Opts.{
  FileType, Host, directory, is_dir, is_file, regular, require_core_chart, require_dir,
  require_file, special, validate_helm_chart_dir,
}

abbrev pub Passes : M (Unit {0}) → Env → Trace → Type 0
Passes m env t = (m env t).0 ≡ done tt

-- The file could be read as a chart of that name.
abbrev pub Named : String → Reply Job.Chart → Type 0
Named core (good chart) = str_eq chart.name core ≡ true
Named core (bad s) = ⊥

abbrev pub NamedIn : Env → Reply String → Type 0
NamedIn env (good text) = Named (core_chart_name env) (env.parse_chart text)
NamedIn env (bad s) = ⊥

-- The layout of the chart directory, at a time when the calls `t` have been made.
pub record WellFormed (host : Host) (env : Env) (t : Trace) (dir : String) : Type 0 where
  pub is_directory : host.metadata dir ≡ good directory
  pub chart_yaml : host.metadata (join dir "Chart.yaml") ≡ good regular
  pub named : NamedIn env (env.read_file t (join dir "Chart.yaml"))
  pub charts : host.metadata (join dir "charts") ≡ good directory
  pub values_yaml : host.metadata (join dir "values.yaml") ≡ good regular
  pub readme_md : host.metadata (join dir "README.md") ≡ good regular
  pub crds : host.metadata (join dir "charts/crds") ≡ good directory
  pub templates : host.metadata (join dir "templates") ≡ good directory

module _ (m : M (Unit {0})) (env : Env) where
  ensure-then :
      (b : Bool) (e : Error) (t : Trace)
      → Passes (ensure b e >> m) env t ↔ ((b ≡ true) × Passes m env t)
  unfolding ◌>>=◌
  ensure-then true e t = (λ h. (refl, h), λ p. p.1)
  ensure-then false e t = (λ h. absurd (cc h), λ p. absurd (cc p.0))

  dir-then :
      (r : Reply FileType) (c : String → Error) (e : Error) (t : Trace)
      → Passes ((lift (λ _. r) c >>= λ k. ensure (is_dir k) e) >> m) env t
        ↔ ((r ≡ good directory) × Passes m env t)
  unfolding ◌>>=◌
  dir-then (good directory) c e t = (λ h. (refl, h), λ p. p.1)
  dir-then (good regular) c e t = (λ h. absurd (cc h), λ p. absurd (cc p.0))
  dir-then (good special) c e t = (λ h. absurd (cc h), λ p. absurd (cc p.0))
  dir-then (bad s) c e t = (λ h. absurd (cc h), λ p. absurd (cc p.0))

  file-then :
      (r : Reply FileType) (c : String → Error) (e : Error) (t : Trace)
      → Passes ((lift (λ _. r) c >>= λ k. ensure (is_file k) e) >> m) env t
        ↔ ((r ≡ good regular) × Passes m env t)
  unfolding ◌>>=◌
  file-then (good directory) c e t = (λ h. absurd (cc h), λ p. absurd (cc p.0))
  file-then (good regular) c e t = (λ h. (refl, h), λ p. p.1)
  file-then (good special) c e t = (λ h. absurd (cc h), λ p. absurd (cc p.0))
  file-then (bad s) c e t = (λ h. absurd (cc h), λ p. absurd (cc p.0))

  chart-then :
      (q : Reply Job.Chart) (core : String) (c : String → Error) (e : Error) (t : Trace)
      → Passes ((lift (λ _. q) c >>= λ chart. ensure (str_eq chart.name core) e) >> m) env t
        ↔ (Named core q × Passes m env t)
  unfolding ◌>>=◌
  chart-then (good chart) core c e t = ensure-then (str_eq chart.name core) e t
  chart-then (bad s) core c e t = (λ h. absurd (cc h), λ p. absurd p.0)

  read-then :
      (r : Reply String) (path : String) (c c' : String → Error) (e : Error) (t : Trace)
      → Passes
          ((reads core_chart_name >>= λ core. request (λ _ _. r) (Call.read_file path) c >>= λ buf.
              lift (λ env. env.parse_chart buf) c' >>= λ chart. ensure (str_eq chart.name core) e)
            >> m)
          env
          t
        ↔ (NamedIn env r × Passes m env (Call.read_file path r ∷ t))
  unfolding ◌>>=◌
  read-then (good text) path c c' e t =
      chart-then (env.parse_chart text) (core_chart_name env) c' e
        (Call.read_file path (good text) ∷ t)
  read-then (bad s) path c c' e t = (λ h. absurd (cc h), λ p. absurd p.0)

module _ (host : Host) (m : M (Unit {0})) (env : Env) (t : Trace) where
  require_dir-then :
      (path : String)
      → Passes (require_dir host path >> m) env t
        ↔ ((host.metadata path ≡ good directory) × Passes m env t)
  unfolding require_dir ◌>>=◌
  require_dir-then path = dir-then m env (host.metadata path) _ _ t

  require_file-then :
      (path : String)
      → Passes (require_file host path >> m) env t
        ↔ ((host.metadata path ≡ good regular) × Passes m env t)
  unfolding require_file ◌>>=◌
  require_file-then path = file-then m env (host.metadata path) _ _ t

  require_core_chart-then :
      (dir : String)
      → Passes (require_core_chart host dir >> m) env t ↔ (
          NamedIn env (env.read_file t (join dir "Chart.yaml"))
          × Passes m env (
              Call.read_file (join dir "Chart.yaml") (env.read_file t (join dir "Chart.yaml")) ∷ t))
  unfolding require_core_chart ◌>>=◌
  require_core_chart-then dir = read-then m env (env.read_file t (join dir "Chart.yaml")) _ _ _ _ t

-- The check of the chart directory passes exactly if the directory is there and holds, of the kinds
-- that they should be, Chart.yaml, which can be read as a chart with the core chart's name, the
-- directories charts, charts/crds and templates, and the files values.yaml and README.md.
pub chart_dir-WellFormed :
    (host : Host) (env : Env) (t : Trace) (dir : String)
    → ((validate_helm_chart_dir host dir env t).0 ≡ done tt) ↔ WellFormed host env t dir
unfolding validate_helm_chart_dir pure
chart_dir-WellFormed host env t dir = (
  (λ h.
      let (is_directory, h₁) = (require_dir-then host _ env t _).0 h in
      let (chart_yaml, h₂) = (require_file-then host _ env t _).0 h₁ in
      let (named, h₃) = (require_core_chart-then host _ env t _).0 h₂ in
      let (charts, h₄) = (require_dir-then host _ env _ _).0 h₃ in
      let (values_yaml, h₅) = (require_file-then host _ env _ _).0 h₄ in
      let (readme_md, h₆) = (require_file-then host _ env _ _).0 h₅ in
      let (crds, h₇) = (require_dir-then host _ env _ _).0 h₆ in
      let (templates, h₈) = (require_dir-then host _ env _ _).0 h₇ in
      record {
        is_directory = is_directory;
        chart_yaml = chart_yaml;
        named = named;
        charts = charts;
        values_yaml = values_yaml;
        readme_md = readme_md;
        crds = crds;
        templates = templates;
      }),
  λ w. (require_dir-then host _ env t _).1 (
    w.is_directory,
    (require_file-then host _ env t _).1 (
      w.chart_yaml,
      (require_core_chart-then host _ env t _).1 (
        w.named,
        (require_dir-then host _ env _ _).1 (
          w.charts,
          (require_file-then host _ env _ _).1 (
            w.values_yaml,
            (require_file-then host _ env _ _).1 (
              w.readme_md,
              (require_dir-then host _ env _ _).1
                  (w.crds, (require_dir-then host _ env _ _).1 (w.templates, refl)),
            ),
          ),
        ),
      ),
    ),
  ),
)
