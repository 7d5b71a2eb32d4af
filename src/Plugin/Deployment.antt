-- ===== src/Plugin/Deployment.antt =====
-- What the plugin learns from the deployment of the REST API: `get_deployment_for_rest`,
-- `get_release_name`, `get_source_version` and `ImageProperties` of k8s/upgrade/src/plugin/upgrade.rs.
use mayastor_extensions.Prelude.{String, Option, none, some, List, [], ◌∷◌, str_append}
use mayastor_extensions.Plugin.Error.{
  k8s_client, list_deploymants_with_label, no_deployment_present,
  reference_deployment_invalid_image, reference_deployment_no_containers,
  reference_deployment_no_image, reference_deployment_no_pod_template_spec,
  reference_deployment_no_spec,
}
use mayastor_extensions.Plugin.Env.{Call, Deployment, Env}
use mayastor_extensions.Plugin.Constants.{api_rest_label_selector, default_image_registry}
use mayastor_extensions.Plugin.Text.{split}
use mayastor_extensions.Plugin.SetFile.{lookup}
use mayastor_extensions.Plugin.Task.{M, client, fail, ok_or, pure, reads, request, ◌>>=◌, ◌>>◌}

-- `first()`
abbrev pub first {ℓ} : {A : Type ℓ} → List A → Option A
first [] = none
first (x ∷ xs) = some x

unfoldable pub get_deployment_for_rest : String → M Deployment
get_deployment_for_rest ns = do
  client k8s_client
  list ←
      request (λ env t. env.list_deployments t ns api_rest_label_selector)
        (Call.list_deployments ns api_rest_label_selector)
        (λ s. list_deploymants_with_label s api_rest_label_selector ns)
  ok_or (first list) no_deployment_present

-- constants/src/lib.rs
abbrev helm_release_name_key : Env → String
helm_release_name_key env = str_append env.product_domain_name "/release"

abbrev helm_release_version_key : Env → String
helm_release_version_key env = str_append env.product_domain_name "/version"

abbrev default_release_name : Env → String
default_release_name env = env.product_name

abbrev label_or : String → Option String → String
label_or default none = default
label_or default (some value) = value

abbrev release_name_in : String → String → Option (List (String × String)) → String
release_name_in key default none = default
release_name_in key default (some labels) = label_or default (lookup key labels)

unfoldable pub get_release_name : String → M String
get_release_name ns = do
  deployment ← get_deployment_for_rest ns
  key ← reads helm_release_name_key
  default ← reads default_release_name
  pure (release_name_in key default deployment.labels)

unfoldable pub get_source_version : String → M String
get_source_version ns = do
  deployment ← get_deployment_for_rest ns
  labels ← ok_or deployment.labels no_deployment_present
  key ← reads helm_release_version_key
  ok_or (lookup key labels) no_deployment_present

pub record ImageProperties : Type 0 where
  pub pull_secrets : Option (List String)
  pub registry : String
  pub pull_policy : Option String

-- `match image_sections.len() { 3 => image_sections[0], _ => DEFAULT_IMAGE_REGISTRY }`
abbrev registry_of : List String → String
registry_of (registry ∷ repo ∷ name ∷ []) = registry
registry_of _ = default_image_registry

unfoldable pub registry_in : List String → M String
registry_in [] = fail reference_deployment_invalid_image
registry_in (section ∷ []) = fail reference_deployment_invalid_image
registry_in (section ∷ other ∷ sections) = pure (registry_of (section ∷ other ∷ sections))

-- `ImageProperties::try_from`
unfoldable pub image_properties : Deployment → M ImageProperties
unfolding registry_in
image_properties d = do
  spec ← ok_or d.spec reference_deployment_no_spec
  pod_spec ← ok_or spec.template reference_deployment_no_pod_template_spec
  container ← ok_or (first pod_spec.containers) reference_deployment_no_containers
  image ← ok_or container.image reference_deployment_no_image
  registry ← registry_in (split 47 image)
  pure (record {
    pull_secrets = pod_spec.image_pull_secrets;
    registry = registry;
    pull_policy = container.image_pull_policy;
  })
