-- ===== src/Upgrade/Helm/Yq.antt =====
-- k8s/upgrade/src/bin/upgrade-job/helm/yaml/yq.rs. The texts that yq prints are taken to be UTF-8,
-- and the patterns to compile.
use mayastor_extensions.Prelude.{
  String, Bool, Option, none, some, List, [], ◌∷◌, str_append, str_eq, if◌then◌else◌,
}
use mayastor_extensions.Upgrade.Error.{
  Error, not_a_valid_yaml_key_for_string_value, not_yq_v4, yq_append_to_array_command,
  yq_append_to_object_command, yq_command_exec, yq_delete_object_command, yq_merge_command,
  yq_set_command, yq_version_command,
}
use mayastor_extensions.Upgrade.Env.{Call, Output}
use mayastor_extensions.Upgrade.Helm.Number.{is_i64}
use mayastor_extensions.Upgrade.Job.{M, pure, ensure, reads, request, ◌>>=◌, ◌>>◌}

-- `YamlKey::try_from`
unfoldable pub yaml_key : String → M String
yaml_key value = do
  valid ← reads (λ env. env.is_yaml_key value)
  ensure valid (not_a_valid_yaml_key_for_string_value value)
  pure value

-- A command with the variable `VAL` set, or not.
unfoldable pub command_output : List String → Option String → M Output
command_output args val =
    request (λ env t. env.yq t args val) (Call.yq args val) (λ s. yq_command_exec s "yq" args)

-- `YqV4::new`
unfoldable pub new : M (Unit {0})
unfolding command_output
new = do
  output ← command_output ("-V" ∷ []) none
  ensure output.success (yq_version_command "yq" "-V" output.stderr)
  v4 ← reads (λ env. env.is_yq_v4 output.stdout)
  ensure v4 not_yq_v4

-- A command that edits a file in place.
unfoldable pub edit :
    String → String → Option String → (String → List String → String → Error) → M (Unit {0})
unfolding command_output
edit expression filepath val context = do
  output ← command_output ("-i" ∷ expression ∷ filepath ∷ []) val
  ensure output.success (context "yq" ("-i" ∷ expression ∷ filepath ∷ []) output.stderr)

unfoldable pub append_to_array : String → String → String → M (Unit {0})
append_to_array key value filepath =
    edit (str_append key (str_append " += [" (str_append value "]"))) filepath none
      yq_append_to_array_command

unfoldable pub append_to_object : String → String → String → M (Unit {0})
append_to_object key value filepath =
    edit (str_append key (str_append " += " value)) filepath none yq_append_to_object_command

unfoldable pub delete_object : String → String → M (Unit {0})
delete_object key filepath =
    edit (str_append "del(" (str_append key ")")) filepath none yq_delete_object_command

-- The file of the lower priority comes first: yq prefers the values of the later one.
unfoldable pub merge_files : String → String → M String
unfolding command_output
merge_files high_priority low_priority = do
  output ←
      command_output
        ("ea" ∷ ". as $item ireduce ({}; . * $item )" ∷ low_priority ∷ high_priority ∷ []) none
  ensure output.success (
      yq_merge_command "yq"
        ("ea" ∷ ". as $item ireduce ({}; . * $item )" ∷ low_priority ∷ high_priority ∷ [])
        output.stderr)
  pure output.stdout

-- The value as it stands in the expression, and the value of `VAL`.
unfoldable pub literal : String → String × Option String
literal value =
    if str_eq value "true"
    then ("true", none)
    else if str_eq value "false"
    then ("false", none)
    else if str_eq value "null"
    then ("null", none)
    else if is_i64 value
    then (value, none)
    else ("strenv(VAL)", some value)

unfoldable pub set_literal_value : String → String → String → M (Unit {0})
unfolding literal edit
set_literal_value key value filepath =
    let (shown, val) = literal value in
    edit (str_append key (str_append " = " shown)) filepath val yq_set_command

-- `format!("{value}")` of a Boolean
abbrev pub bool_text : Bool → String
bool_text b = if b then "true" else "false"
