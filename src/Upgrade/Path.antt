-- ===== src/Upgrade/Path.antt =====
-- k8s/upgrade/src/bin/upgrade-job/upgrade/path.rs
use Prim.Native.Char.{Char, code}
use Prim.Native.String.{[], ◌∷◌}
use mayastor_extensions.Prelude.{
  String, Bool, true, not, Option, none, some, ◌==◌, str_append, if◌then◌else◌,
}
use mayastor_extensions.Upgrade.Error.{
  helm_chart_name_split, reading_file, semver_parse, yaml_parse_buffer_for_unsupported_version,
  yaml_parse_from_file,
}
use mayastor_extensions.Upgrade.Env.{Call}
use mayastor_extensions.Upgrade.Version.{Version, contains_version}
use mayastor_extensions.Upgrade.Job.{M, pure, lift, ok_or, reads, request, ◌>>=◌}

ends_in_slash : Bool → String → Bool
ends_in_slash last [] = last
ends_in_slash last (c ∷ rest) = ends_in_slash (code c == 47) rest

-- `Path::join` with a file name: no separator after an empty path or a trailing one.
unfoldable pub join : String → String → String
unfolding ends_in_slash
join dir file = str_append dir (if ends_in_slash true dir then file else str_append "/" file)

-- `split_once('-')`
before : Char → Option (String × String) → Option (String × String)
before c none = none
before c (some (a, b)) = some (c ∷ a, b)

unfoldable pub split_once : String → Option (String × String)
unfolding before
split_once [] = none
split_once (c ∷ rest) =
    let found = split_once rest in if code c == 45 then some ("", rest) else before c found

-- The unsupported versions are in a file that is part of the program.
unfoldable pub is_valid_for_core_chart : Version → M Bool
is_valid_for_core_chart version = do
  unsupported ←
      lift (λ env. env.parse_unsupported_versions) yaml_parse_buffer_for_unsupported_version
  semver ← reads (λ env. env.semver)
  pure (not (contains_version semver unsupported version))

unfoldable pub version_from_chart_yaml_file : String → M Version
version_from_chart_yaml_file path = do
  yaml ← request (λ env t. env.read_file t path) (Call.read_file path) (λ s. reading_file s path)
  chart ← lift (λ env. env.parse_chart yaml) (λ s. yaml_parse_from_file s path)
  pure chart.version

unfoldable pub version_from_release_chart : String → M Version
version_from_release_chart chart_name = do
  parts ← ok_or (split_once chart_name) (helm_chart_name_split chart_name "-")
  lift (λ env. env.parse_version parts.1) (λ s. semver_parse s parts.1)

-- `Version::parse` of a constant
unfoldable pub version_of : String → M Version
version_of text = lift (λ env. env.parse_version text) (λ s. semver_parse s text)
