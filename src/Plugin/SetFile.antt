-- ===== src/Plugin/SetFile.antt =====
-- `create_config_map_data` and `create_helm_set_file_args` of k8s/upgrade/src/plugin/upgrade.rs: the
-- files that the user names go to the upgrade's ConfigMap under numbers. The maps are association
-- lists.
pub mod Mounted
use mayastor_extensions.Prelude.{
  ℕ, ◌+◌, String, Bool, Option, none, some, List, [], ◌∷◌, str_append, str_eq, if◌then◌else◌,
}
use mayastor_extensions.Plugin.Error.{
  invalid_set_file_arguments, read_from_file, specified_key_not_present,
}
use mayastor_extensions.Plugin.Env.{Call}
use mayastor_extensions.Plugin.Constants.{upgrade_config_map_mount_path}
use mayastor_extensions.Plugin.Objects.{join}
use mayastor_extensions.Plugin.Text.{split, to_string}
use mayastor_extensions.Plugin.Task.{M, pure, fail, ok_or, request, ◌>>=◌}

abbrev pub Map : Type 0
Map = List (String × String)

abbrev pub lookup : String → Map → Option String
lookup k [] = none
lookup k ((j, v) ∷ m) = if str_eq j k then some v else lookup k m

abbrev pub insert : String → String → Map → Map
insert k v [] = (k, v) ∷ []
insert k v ((j, w) ∷ m) = if str_eq j k then (k, v) ∷ m else (j, w) ∷ insert k v m

-- `let [key, filepath] = data[..] else { return ... }`, of `file.split('=')`
abbrev pub two_parts : List String → Option (String × String)
two_parts (key ∷ path ∷ []) = some (key, path)
two_parts _ = none

unfoldable pub key_and_path : String → M (String × String)
key_and_path file = ok_or (two_parts (split 61 file)) (invalid_set_file_arguments file)

unfoldable pub read_to_string : String → M String
read_to_string path =
    request (λ env t. env.read_file t path) (Call.read_file path) (λ s. read_from_file s path)

-- The loop, from this index on: the file's content under the index, and the index under the path.
unfoldable pub config_map_loop : List String → ℕ → Map → Map → M (Map × Map)
config_map_loop [] index data_map upgrade_map = pure (data_map, upgrade_map)
config_map_loop (file ∷ files) index data_map upgrade_map = do
  parts ← key_and_path file
  content ← read_to_string parts.1
  config_map_loop files (index + 1) (insert (to_string index) content data_map)
      (insert parts.1 (to_string index) upgrade_map)

unfoldable pub create_config_map_data : List String → M (Map × Map)
create_config_map_data set_file = config_map_loop set_file 1 [] []

-- "<key>=<mount path>/<index>"
unfoldable pub mounted : String → String → String
mounted key index =
    str_append key
      (str_append "=" (str_append upgrade_config_map_mount_path (str_append "/" index)))

-- `set_file_map.as_ref().and_then(|map| map.get(filepath))`
abbrev index_of : Option Map → String → Option String
index_of none path = none
index_of (some map) path = lookup path map

unfoldable pub set_file_loop : Option Map → List String → M (List String)
set_file_loop map [] = pure []
set_file_loop map (file ∷ files) = do
  parts ← key_and_path file
  index ← ok_or (index_of map parts.1) specified_key_not_present
  rest ← set_file_loop map files
  pure (mounted parts.0 index ∷ rest)

unfoldable pub create_helm_set_file_args : List String → Option Map → M (Option String)
create_helm_set_file_args [] map = pure none
create_helm_set_file_args (file ∷ files) map = do
  args ← set_file_loop map (file ∷ files)
  pure (some (join "," args))
