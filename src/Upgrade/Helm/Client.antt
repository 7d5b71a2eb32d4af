-- ===== src/Upgrade/Helm/Client.antt =====
-- k8s/upgrade/src/bin/upgrade-job/helm/client.rs. The texts that helm prints are taken to be UTF-8.
use mayastor_extensions.Prelude.{
  String, Option, none, some, List, [], ◌∷◌, ◌++◌, str_eq, if◌then◌else◌,
}
use mayastor_extensions.Upgrade.Error.{
  Error, helm_command, helm_get_values_command, helm_list_command, helm_release,
  helm_upgrade_command, yaml_parse_from_slice,
}
use mayastor_extensions.Upgrade.Env.{Call, HelmReleaseElement, Output}
use mayastor_extensions.Upgrade.Job.{M, pure, fail, ensure, lift, request, ◌>>=◌, ◌>>◌}

pub record HelmReleaseClient : Type 0 where
  pub namespace : String

abbrev extra : Option (List String) → List String
extra none = []
extra (some args) = args

-- `Command::new("helm").args(..).output()`, and the check of its exit status
unfoldable pub run_helm : List String → (String → List String → String → Error) → M Output
run_helm args context = do
  output ← request (λ env t. env.helm t args) (Call.helm args) (λ s. helm_command s "helm" args)
  ensure output.success (context "helm" args output.stderr)
  pure output

unfoldable pub get_values_as_yaml : HelmReleaseClient → String → Option (List String) → M String
unfolding run_helm
get_values_as_yaml client release_name extra_args = do
  output ←
      run_helm
        ("get"
          ∷ "values"
          ∷ release_name
          ∷ "-n"
          ∷ client.namespace
          ∷ "-a"
          ∷ (extra extra_args ++ "-o" ∷ "yaml" ∷ []))
        helm_get_values_command
  pure output.stdout

unfoldable pub list_as_yaml : HelmReleaseClient → Option (List String) → M (List HelmReleaseElement)
unfolding run_helm
list_as_yaml client extra_args = do
  output ←
      run_helm
        ("list" ∷ "-n" ∷ client.namespace ∷ "--deployed" ∷ (extra extra_args ++ "-o" ∷ "yaml" ∷ []))
        helm_list_command
  lift (λ env. env.parse_release_list output.stdout) (λ s. yaml_parse_from_slice s output.stdout)

abbrev pub upgrade_args : HelmReleaseClient → String → String → List String → List String
upgrade_args client release_name chart_dir extra_args =
    "upgrade" ∷ release_name ∷ chart_dir ∷ "-n" ∷ client.namespace ∷ "--timeout" ∷ "15m"
    ∷ extra_args

unfoldable pub upgrade : HelmReleaseClient → String → String → Option (List String) → M (Unit {0})
unfolding run_helm
upgrade client release_name chart_dir extra_args = do
  run_helm (upgrade_args client release_name chart_dir (extra extra_args)) helm_upgrade_command
  pure tt

unfoldable pub find_release : String → String → List HelmReleaseElement → M HelmReleaseElement
find_release namespace release_name [] = fail (helm_release release_name namespace)
find_release namespace release_name (release ∷ rest) =
    if str_eq release.name release_name
    then pure release
    else find_release namespace release_name rest

unfoldable pub release_info : HelmReleaseClient → String → M HelmReleaseElement
unfolding find_release
release_info client release_name = do
  release_list ← list_as_yaml client none
  find_release client.namespace release_name release_list
