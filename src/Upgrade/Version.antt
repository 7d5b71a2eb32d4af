-- ===== src/Upgrade/Version.antt =====
-- The `semver` crate, as the upgrade job uses it: the public fields of `Version`, and its order and
-- its printer as parameters.
pub mod Order
use Prim.Native.Nat.{Ordering}
use mayastor_extensions.Prelude.{ℕ, String, Bool, true, false, List, [], ◌∷◌, ◌||◌}

pub record Version : Type 0 where
  pub major : ℕ
  pub minor : ℕ
  pub patch : ℕ
  pub pre : String
  pub build : String

-- `Version::new`
abbrev pub release : ℕ → ℕ → ℕ → Version
release a b c = record { major = a; minor = b; patch = c; pre = ""; build = "" }

pub record Semver : Type 0 where
  pub cmp : Version → Version → Ordering
  pub to_string : Version → String

-- `a.ge(b)`, `a.le(b)`, `a.lt(b)`, `a.eq(b)`
abbrev pub ge : Semver → Version → Version → Bool
ge s a b = elim (s.cmp a b) [ Ordering.lt ↦ false | _ ↦ true ]

abbrev pub le : Semver → Version → Version → Bool
le s a b = elim (s.cmp a b) [ Ordering.gt ↦ false | _ ↦ true ]

abbrev pub lt : Semver → Version → Version → Bool
lt s a b = elim (s.cmp a b) [ Ordering.lt ↦ true | _ ↦ false ]

abbrev pub eq : Semver → Version → Version → Bool
eq s a b = elim (s.cmp a b) [ Ordering.eq ↦ true | _ ↦ false ]

-- `versions.contains(v)`
abbrev pub contains_version : Semver → List Version → Version → Bool
contains_version s [] v = false
contains_version s (x ∷ xs) v = eq s x v || contains_version s xs v
