-- ===== src/Plugin/Preflight/Path.antt =====
-- Which upgrade paths the check accepts.
use Prim.Native.Nat.{Ordering}
use mayastor_extensions.Prelude.{
  ◌≢◌, ap, Option, none, some, eq_iff, String, Bool, true, false, not, ◌&&◌, ◌≡◌, refl, sym, subst,
  ◌∙◌, ◌↔◌, List,
}
use mayastor_extensions.Effect.Run.{bind_done, lift_done}
use mayastor_extensions.Upgrade.Version.{Version}
use mayastor_extensions.Upgrade.Version.Order.{
  Unlisted, Unlisted-contains_version, contains_version-Unlisted, not_lt_iff,
}
use mayastor_extensions.Plugin.Preflight.Own.{OwnVersion, self_version-OwnVersion}
use mayastor_extensions.Plugin.Env.{Env, Prompt, Trace, good}
use mayastor_extensions.Plugin.Error
use mayastor_extensions.Plugin.Constants.{image_version_tag}
use mayastor_extensions.Plugin.Deployment.{get_source_version}
use mayastor_extensions.Plugin.Preflight.{
  is_lower, is_stable, path_checks, refuse_if, self_version, upgrade_path_validation,
}
use mayastor_extensions.Plugin.Task.{M, done, fail, note, pure, ◌>>=◌, ◌>>◌}

-- The tag of the image that the upgrade goes to.
abbrev destination : Env → String
destination env = elim env.version_tag [ none ↦ "develop" | some tag ↦ tag ]

-- The upgrade from this version to the plugin's own may go ahead.
pub record Acceptable (env : Env) (allow_unstable : Bool) (unsupported : List Version)
    (source : Version) : Type 0 where
  pub supported : Unlisted env.semver unsupported source
  pub not_develop : env.mentions_develop (destination env) ≡ false
  pub not_unstable :
      allow_unstable ≡ false → source.pre ≡ "" → (v : Version) × OwnVersion env v × (v.pre ≡ "")
  pub not_lower : (v : Version) → OwnVersion env v → env.semver.cmp v source ≢ Ordering.lt

-- Where a refusal is passed.
passed :
    (b : Bool) (prompt : Prompt) (text : String) (e : Error.Error) (m : M (Unit {0})) (env : Env)
    (t : Trace)
    → ((refuse_if b prompt text e >> m) env t).0 ≡ done tt
    → (b ≡ false) × ((m env t).0 ≡ done tt)
unfolding refuse_if note fail ◌>>=◌
passed true prompt text e m env t h = absurd (cc h)
passed false prompt text e m env t h = (refl, h)

passes :
    (b : Bool) (prompt : Prompt) (text : String) (e : Error.Error) (m : M (Unit {0})) (env : Env)
    (t : Trace)
    → b ≡ false
    → (m env t).0 ≡ done tt
    → ((refuse_if b prompt text e >> m) env t).0 ≡ done tt
unfolding refuse_if ◌>>=◌
passes b prompt text e m env t f h = rw f h

last_passed :
    (b : Bool) (prompt : Prompt) (text : String) (e : Error.Error) (env : Env) (t : Trace)
    → (refuse_if b prompt text e env t).0 ≡ done tt
    → b ≡ false
unfolding refuse_if note fail ◌>>=◌
last_passed true prompt text e env t h = absurd (cc h)
last_passed false prompt text e env t h = refl

last_passes :
    (b : Bool) (prompt : Prompt) (text : String) (e : Error.Error) (env : Env) (t : Trace)
    → b ≡ false
    → (refuse_if b prompt text e env t).0 ≡ done tt
unfolding refuse_if pure
last_passes b prompt text e env t f = rw f refl

unstable_allowed :
    (allow stable self : Bool)
    → (not allow && (stable && not self)) ≡ false
    → allow ≡ false
    → stable ≡ true
    → self ≡ true
unstable_allowed true stable self h a s = absurd (cc a)
unstable_allowed false true true h a s = refl
unstable_allowed false true false h a s = absurd (cc h)
unstable_allowed false false self h a s = absurd (cc s)

unstable_refused :
    (allow stable self : Bool)
    → (allow ≡ false → stable ≡ true → self ≡ true)
    → (not allow && (stable && not self)) ≡ false
unstable_refused true stable self h = refl
unstable_refused false false self h = refl
unstable_refused false true self h = rw (h refl refl) refl

tag-destination : (env : Env) → image_version_tag env.version_tag ≡ destination env
unfolding image_version_tag
tag-destination env = go env.version_tag
  where
    go : (o : Option String) → image_version_tag o ≡ elim o [ none ↦ "develop" | some tag ↦ tag ]
    go none = refl
    go (some tag) = refl

module _ (env : Env) (source : Version) where
  -- The code's tests of its own version say what they should.
  stable-own :
      is_stable (self_version env env.version_tag) ≡ true
      → (v : Version) × OwnVersion env v × (v.pre ≡ "")
  stable-own = go (self_version env env.version_tag) refl
    where
      go :
          (o : Option Version)
          → self_version env env.version_tag ≡ o
          → is_stable o ≡ true
          → (v : Version) × OwnVersion env v × (v.pre ≡ "")
      go none e h = absurd (cc h)
      go (some v) e h = (v, (self_version-OwnVersion env v).0 e, (eq_iff v.pre "").0 h)

  own-stable :
      (v : Version)
      → OwnVersion env v
      → v.pre ≡ ""
      → is_stable (self_version env env.version_tag) ≡ true
  own-stable v own h = rw ((self_version-OwnVersion env v).1 own) ((eq_iff v.pre "").1 h)

  not_lower-own :
      is_lower env (self_version env env.version_tag) source ≡ false
      → (v : Version) → OwnVersion env v
      → env.semver.cmp v source ≢ Ordering.lt
  not_lower-own h v own =
      (not_lt_iff env.semver v source).0
        (sym (ap (λ o. is_lower env o source) ((self_version-OwnVersion env v).1 own)) ∙ h)

  own-not_lower :
      ((v : Version) → OwnVersion env v → env.semver.cmp v source ≢ Ordering.lt)
      → is_lower env (self_version env env.version_tag) source ≡ false
  own-not_lower h = go (self_version env env.version_tag) refl
    where
      go :
          (o : Option Version)
          → self_version env env.version_tag ≡ o
          → is_lower env o source ≡ false
      go none e = refl
      go (some v) e = (not_lt_iff env.semver v source).1 (h v ((self_version-OwnVersion env v).0 e))

checks-Acceptable :
    (allow_unstable : Bool) (env : Env) (t : Trace) (unsupported : List Version) (source : Version)
    → ((path_checks allow_unstable unsupported source env t).0 ≡ done tt)
      ↔ Acceptable env allow_unstable unsupported source
unfolding path_checks ◌>>=◌
checks-Acceptable allow_unstable env t unsupported source = (
  (λ h.
      let (supported, h₁) = passed _ _ _ _ _ env t h in
      let (released, h₂) = passed _ _ _ _ _ env t h₁ in
      let (stable, h₃) = passed _ _ _ _ _ env t h₂ in
      record {
        supported = contains_version-Unlisted env.semver source unsupported supported;
        not_develop = sym (ap env.mentions_develop (tag-destination env)) ∙ released;
        not_unstable = λ a p.
            stable-own env source
              (unstable_allowed allow_unstable _ _ stable a ((eq_iff source.pre "").1 p));
        not_lower = not_lower-own env source (last_passed _ _ _ _ env t h₃);
      }),
  λ a.
      passes _ _ _ _ _ env t (Unlisted-contains_version env.semver source unsupported a.supported) (
        passes _ _ _ _ _ env t (ap env.mentions_develop (tag-destination env) ∙ a.not_develop) (
          passes _ _ _ _ _ env t
            (unstable_refused allow_unstable _ _ (λ n p.
              let (v, own, stable) = a.not_unstable n ((eq_iff source.pre "").0 p) in
              own-stable env source v own stable))
            (last_passes _ _ _ _ env t (own-not_lower env source a.not_lower)))),
)

validation-checks :
    (ns : String) (allow_unstable : Bool) (env : Env) (t t' : Trace) (unsupported : List Version)
    (text : String) (source : Version)
    → env.parse_unsupported_versions ≡ good unsupported
    → get_source_version ns env t ≡ (done text, t')
    → env.parse_version text ≡ good source
    → upgrade_path_validation ns allow_unstable env t
      ≡ path_checks allow_unstable unsupported source env t'
unfolding upgrade_path_validation
validation-checks ns allow_unstable env t t' unsupported text source e₁ e₂ e₃ =
    lift_done _ _ _ env t unsupported e₁
    ∙ bind_done _ _ env t t' text e₂
    ∙ lift_done _ _ _ env t' source e₃

-- When the file of unsupported versions, the version in the REST API's deployment and its semantic
-- version can be read, the check of the upgrade path passes exactly if the source version equals none
-- of the unsupported ones; the destination's tag does not mention a development build; a source
-- without a pre-release part does not go, unless that is allowed, to a plugin whose own version is a
-- pre-release or cannot be made out; and the plugin's own version, if it can be made out, is not lower
-- than the source. If it cannot be made out (no tag, an empty one, or one that is no version), nothing
-- is asked by the last condition.
pub upgrade_path-Acceptable :
    (ns : String) (allow_unstable : Bool) (env : Env) (t t' : Trace) (unsupported : List Version)
    (text : String) (source : Version)
    → env.parse_unsupported_versions ≡ good unsupported
    → get_source_version ns env t ≡ (done text, t')
    → env.parse_version text ≡ good source
    → ((upgrade_path_validation ns allow_unstable env t).0 ≡ done tt)
      ↔ Acceptable env allow_unstable unsupported source
upgrade_path-Acceptable ns allow_unstable env t t' unsupported text source e₁ e₂ e₃ =
    subst (λ r. (r.0 ≡ done tt) ↔ Acceptable env allow_unstable unsupported source)
      (sym (validation-checks ns allow_unstable env t t' unsupported text source e₁ e₂ e₃))
      (checks-Acceptable allow_unstable env t' unsupported source)
