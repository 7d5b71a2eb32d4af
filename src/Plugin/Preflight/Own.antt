-- ===== src/Plugin/Preflight/Own.antt =====
-- The version that the plugin was built from, as `upgrade_path_validation` makes it out.
use Prim.Native.Char.{Char, code}
use mayastor_extensions.Prelude.{
  String, false, ◌≡◌, ◌≢◌, refl, sym, ap, ◌∙◌, ◌↔◌, Option, none, some, arith, ◌==◌, str_eq, eq_iff,
  Bool-cases, inl, inr,
}
use mayastor_extensions.Upgrade.Version.{Version}
use mayastor_extensions.Plugin.Env.{Env, Reply, bad, good}
use mayastor_extensions.Plugin.Preflight.{parsed, self_version}
use mayastor_extensions.Plugin.Text.{strip_v_prefix}

-- The build has a tag, and the tag, without a first "v" (the character of code 118), is this version.
-- An empty tag is none.
pub data OwnVersion (env : Env) (v : Version) : Type 0 where
  prefixed :
      (c : Char) (rest : String)
      → env.version_tag ≡ some (String.◌∷◌ c rest)
      → code c ≡ 118
      → env.parse_version rest ≡ good v
      → OwnVersion env v
  plain :
      (c : Char) (rest : String)
      → env.version_tag ≡ some (String.◌∷◌ c rest)
      → code c ≢ 118
      → env.parse_version (String.◌∷◌ c rest) ≡ good v
      → OwnVersion env v

parsed-good : (r : Reply Version) (v : Version) → parsed r ≡ some v → r ≡ good v
parsed-good (good w) v h = cc
parsed-good (bad s) v h = absurd (cc h)

nonempty : (c : Char) (rest : String) → str_eq (String.◌∷◌ c rest) "" ≡ false
nonempty c rest = elim (Bool-cases (str_eq (String.◌∷◌ c rest) "")) [
  | inl e ↦ absurd (cc ((eq_iff (String.◌∷◌ c rest) "").0 e))
  | inr e ↦ e
]

module _ (env : Env) (v : Version) where
  tag-OwnVersion :
      (tag : Option String)
      → env.version_tag ≡ tag
      → self_version env tag ≡ some v
      → OwnVersion env v
  unfolding self_version strip_v_prefix
  tag-OwnVersion none e h = absurd (cc h)
  tag-OwnVersion (some String.[]) e h = absurd (cc h)
  tag-OwnVersion (some (String.◌∷◌ c rest)) e h = elim (Bool-cases (code c == 118)) [
    | inl y ↦
        prefixed c rest e (ground (arith, y))
          (parsed-good _ v (sym (rw (nonempty c rest, y) refl) ∙ h))
    | inr n ↦
        plain c rest e (ground (arith, n))
          (parsed-good _ v (sym (rw (nonempty c rest, n) refl) ∙ h))
  ]

  OwnVersion-tag : OwnVersion env v → self_version env env.version_tag ≡ some v
  unfolding self_version strip_v_prefix
  OwnVersion-tag (prefixed c rest e y p) = ap (self_version env) e ∙ rw (nonempty c rest, y, p) refl
  OwnVersion-tag (plain c rest e n p) =
      let other : (code c == 118) ≡ false = ground (arith, n) in
      ap (self_version env) e ∙ rw (nonempty c rest, other, p) refl

  pub self_version-OwnVersion : (self_version env env.version_tag ≡ some v) ↔ OwnVersion env v
  self_version-OwnVersion = (tag-OwnVersion env.version_tag refl, OwnVersion-tag)
