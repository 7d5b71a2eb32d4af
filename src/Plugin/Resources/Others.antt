-- ===== src/Plugin/Resources/Others.antt =====
-- The parts of the plugin that only look around keep what is known of an upgrade's objects.
use mayastor_extensions.Prelude.{ℕ, ◌+◌, String, true, ◌≡◌, refl, Option, List, [], ◌∷◌}
use mayastor_extensions.Effect.Hoare.{
  Hoare-bind, Hoare-fail, Hoare-lift, Hoare-ok_or, Hoare-pure, Hoare-reads-bind,
}
use mayastor_extensions.Effect.Keeps.{Keeps, Keeps-request}
use mayastor_extensions.Plugin.Error.{Error}
use mayastor_extensions.Plugin.Env.{Call, Deployment, Env, Reply, Trace}
use mayastor_extensions.Plugin.SetFile.{
  Map, config_map_loop, create_config_map_data, create_helm_set_file_args, insert, key_and_path,
  read_to_string, set_file_loop,
}
use mayastor_extensions.Plugin.Text.{to_string}
use mayastor_extensions.Plugin.Deployment.{
  get_deployment_for_rest, get_release_name, image_properties, registry_in,
}
use mayastor_extensions.Plugin.Resources.{new}
use mayastor_extensions.Plugin.Resources.Seen.{is_other}
use mayastor_extensions.Plugin.Task.{M, client, lift, note, ok_or, request}

module _ (env : Env) (I E : Trace → Type 0) (safe : (t : Trace) → I t → E t)
    (step : (t : Trace) (c : Call) → is_other c ≡ true → I t → I (c ∷ t)) where
  abbrev pub Stays : {A : Type 0} → M A → Type 0
  Stays m = Keeps env is_other I E safe step m

  pub Stays-ask :
      {A : Type 0} (ask : Env → Trace → Reply A) (log : Reply A → Call) (e : String → Error)
      → ((r : Reply A) → is_other (log r) ≡ true)
      → Stays (request ask log e)
  Stays-ask ask log e k = Keeps-request env is_other I E safe step ask log e k

  pub Stays-ok_or : {A : Type 0} (o : Option A) (e : Error) → Stays (ok_or o e)
  Stays-ok_or o e = Hoare-ok_or o e (λ t a p h. h) safe

  pub Stays-client : (e : String → Error) → Stays (client e)
  unfolding client
  Stays-client e = Stays-ask _ _ e (λ r. refl)

  pub Stays-deployment : (ns : String) → Stays (get_deployment_for_rest ns)
  unfolding get_deployment_for_rest
  Stays-deployment ns =
      Hoare-bind _ _ (Stays-client _)
        λ _. Hoare-bind _ _ (Stays-ask _ _ _ (λ r. refl)) λ list. Stays-ok_or _ _

  pub Stays-release_name : (ns : String) → Stays (get_release_name ns)
  unfolding get_release_name
  Stays-release_name ns =
      Hoare-bind _ _ (Stays-deployment ns)
        λ d. Hoare-reads-bind _ _ (Hoare-reads-bind _ _ (Hoare-pure _ (λ t h. h)))

  pub Stays-new : (ns : String) → Stays (new ns)
  unfolding new
  Stays-new ns = Hoare-bind _ _ (Stays-client _) λ _. Stays-release_name ns

  Stays-registry : (sections : List String) → Stays (registry_in sections)
  unfolding registry_in
  Stays-registry [] = Hoare-fail _ safe
  Stays-registry (a ∷ []) = Hoare-fail _ safe
  Stays-registry (a ∷ b ∷ more) = Hoare-pure _ (λ t h. h)

  pub Stays-image : (d : Deployment) → Stays (image_properties d)
  unfolding image_properties
  Stays-image d = Hoare-bind _ _ (Stays-ok_or d.spec _) λ spec.
      Hoare-bind _ _ (Stays-ok_or spec.template _) λ pod_spec.
        Hoare-bind _ _ (Stays-ok_or _ _) λ container.
          Hoare-bind _ _ (Stays-ok_or container.image _)
            λ image. Hoare-bind _ _ (Stays-registry _) λ registry. Hoare-pure _ (λ t h. h)

  Stays-key_and_path : (file : String) → Stays (key_and_path file)
  unfolding key_and_path
  Stays-key_and_path file = Stays-ok_or _ _

  Stays-config_map_loop :
      (files : List String) (index : ℕ) (a b : Map) → Stays (config_map_loop files index a b)
  unfolding config_map_loop read_to_string
  Stays-config_map_loop [] index a b = Hoare-pure _ (λ t h. h)
  Stays-config_map_loop (file ∷ files) index a b = Hoare-bind _ _ (Stays-key_and_path file) λ parts.
      Hoare-bind _ _ (Stays-ask _ _ _ (λ r. refl)) λ content.
        Stays-config_map_loop files (index + 1) (insert (to_string index) content a)
          (insert parts.1 (to_string index) b)

  pub Stays-config_map_data : (files : List String) → Stays (create_config_map_data files)
  unfolding create_config_map_data
  Stays-config_map_data files = Stays-config_map_loop files 1 [] []

  Stays-set_file_loop : (map : Option Map) (files : List String) → Stays (set_file_loop map files)
  unfolding set_file_loop
  Stays-set_file_loop map [] = Hoare-pure _ (λ t h. h)
  Stays-set_file_loop map (file ∷ files) = Hoare-bind _ _ (Stays-key_and_path file) λ parts.
      Hoare-bind _ _ (Stays-ok_or _ _)
        λ index. Hoare-bind _ _ (Stays-set_file_loop map files) λ rest. Hoare-pure _ (λ t h. h)

  pub Stays-set_file_args :
      (files : List String) (map : Option Map) → Stays (create_helm_set_file_args files map)
  unfolding create_helm_set_file_args
  Stays-set_file_args [] map = Hoare-pure _ (λ t h. h)
  Stays-set_file_args (file ∷ files) map =
      Hoare-bind _ _ (Stays-set_file_loop map (file ∷ files)) λ args. Hoare-pure _ (λ t h. h)

  pub Stays-lift : {A : Type 0} (r : Env → Reply A) (e : String → Error) → Stays (lift r e)
  Stays-lift r e = Hoare-lift r e (λ t a p h. h) safe

  pub Stays-note : (c : Call) → is_other c ≡ true → Stays (note c)
  unfolding note
  Stays-note c k = record { at = λ t h. step t c k h }
