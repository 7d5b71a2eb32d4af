-- ===== src/Upgrade/Product/Edits.antt =====
-- Making the values file keeps what the calls on the job's own host keep.
use mayastor_extensions.Prelude.{String, Bool, true, ◌≡◌, refl, Option, List, ◌∷◌}
use mayastor_extensions.Upgrade.Error.{
  Error, yq_append_to_array_command, yq_append_to_object_command, yq_delete_object_command,
  yq_set_command,
}
use mayastor_extensions.Upgrade.Env.{Env, Trace, Call}
use mayastor_extensions.Upgrade.Version.{Semver, Version}
use mayastor_extensions.Upgrade.Values.{CoreValues}
use mayastor_extensions.Upgrade.Job.{M, ◌>>=◌}
use mayastor_extensions.Upgrade.Job.Hoare.{Hoare-bind, Hoare-for_each, Hoare-if, Hoare-with_rounds}
use mayastor_extensions.Effect.Paging.{Hoare-paginate}
use mayastor_extensions.Upgrade.Path.{version_of}
use mayastor_extensions.Upgrade.Helm.Yq
use mayastor_extensions.Upgrade.Helm.Yq.{
  append_to_array, append_to_object, command_output, delete_object, edit, literal, merge_files,
  set_literal_value, yaml_key,
}
use mayastor_extensions.Upgrade.Helm.Values.{
  crds_page, delete, extra_client_configs, loki_address_to_clients, safe_crd_install, set, toggle,
  when, write_to_tempfile,
}
use mayastor_extensions.Upgrade.Helm.Values.Generate.{
  edit_values, generate_values_yaml_file, set_before_two_dot_six, set_eventing, set_image_tags,
  set_localpv, set_log_level, set_loki_stack_images, set_promtail, set_renamed_keys, set_repo_tags,
  set_scrape_configs_and_io_timeout,
}
use mayastor_extensions.Upgrade.Product.Kinds.{is_host}
use mayastor_extensions.Upgrade.Product.Listing.{client-Stays}
use mayastor_extensions.Upgrade.Product.Host
use mayastor_extensions.Upgrade.Product.Host.{listing-host}

module _ (env : Env) (I E : Trace → Type 0) (safe : (t : Trace) → I t → E t)
    (step : (t : Trace) (c : Call) → is_host c ≡ true → I t → I (c ∷ t)) where
  abbrev pub Stays : {A : Type 0} → M A → Type 0
  Stays m = Host.Stays env I E safe step m

  abbrev and_then :
      {A B : Type 0} {m : M A} {f : A → M B} → Stays m → ((a : A) → Stays (f a)) → Stays (m >>= f)
  and_then {m = m} {f = f} hm hf = Hoare-bind m f hm hf

  version_of-Stays : (text : String) → Stays (version_of text)
  unfolding version_of
  version_of-Stays text = Host.parsed env I E safe step _ _

  yaml_key-Stays : (key : String) → Stays (yaml_key key)
  unfolding yaml_key
  yaml_key-Stays key =
      and_then (Host.read env I E safe step _)
        λ valid. and_then (Host.check env I E safe step _ _) λ _. Host.ok env I E safe step key

  command_output-Stays :
      (args : List String) (val : Option String) → Stays (command_output args val)
  unfolding command_output
  command_output-Stays args val = Host.ask env I E safe step _ _ _ (λ r. refl)

  edit-Stays :
      (expression file : String) (val : Option String)
      (context : String → List String → String → Error)
      → Stays (edit expression file val context)
  unfolding edit
  edit-Stays expression file val context =
      and_then (command_output-Stays _ _) λ output. Host.check env I E safe step _ _

  set_literal-Stays : (key value file : String) → Stays (set_literal_value key value file)
  unfolding set_literal_value
  set_literal-Stays key value file = edit-Stays _ _ _ yq_set_command

  set-Stays : (file key value : String) → Stays (set file key value)
  unfolding set
  set-Stays file key value = and_then (yaml_key-Stays key) λ k. set_literal-Stays k value file

  delete-Stays : (file key : String) → Stays (delete file key)
  unfolding delete delete_object
  delete-Stays file key =
      and_then (yaml_key-Stays key) λ k. edit-Stays _ _ _ yq_delete_object_command

  when-Stays : (b : Bool) (m : M (Unit {0})) → Stays m → Stays (when b m)
  unfolding when
  when-Stays b m h = Hoare-if b _ _ (λ _. h) (λ _. Host.ok env I E safe step tt)

  write_to_tempfile-Stays : (dir buf : String) → Stays (write_to_tempfile dir buf)
  unfolding write_to_tempfile
  write_to_tempfile-Stays dir buf = and_then (Host.ask env I E safe step _ _ _ (λ r. refl)) λ path.
      and_then (Host.ask env I E safe step _ _ _ (λ r. refl)) λ _. Host.ok env I E safe step path

  extra_client_configs-Stays : (config file : String) → Stays (extra_client_configs config file)
  unfolding extra_client_configs append_to_object
  extra_client_configs-Stays config file = when-Stays _ _ (
      and_then (Host.parsed env I E safe step _ _) λ value.
        and_then (Host.parsed env I E safe step _ _)
          λ json. and_then (yaml_key-Stays _) λ k. edit-Stays _ _ _ yq_append_to_object_command)

  loki_address_to_clients-Stays :
      (source : CoreValues) (file : String) → Stays (loki_address_to_clients source file)
  unfolding loki_address_to_clients delete_object append_to_array
  loki_address_to_clients-Stays source file = and_then (yaml_key-Stays _) λ clients.
      and_then (edit-Stays _ _ _ yq_delete_object_command) λ _.
        and_then (Host.parsed env I E safe step _ _) λ c.
          and_then (edit-Stays _ _ _ yq_append_to_array_command) λ _.
            and_then (extra_client_configs-Stays _ file)
              λ _. and_then (delete-Stays file _) λ _. delete-Stays file _

  pub safe_crd_install-Stays : (file : String) → Stays (safe_crd_install file)
  unfolding safe_crd_install crds_page toggle
  safe_crd_install-Stays file = and_then (yaml_key-Stays _) λ snapshots.
      and_then (yaml_key-Stays _) λ jaeger.
        and_then (client-Stays env I E safe (λ t c k h. step t c (listing-host c k) h)) λ _.
          and_then
            (Hoare-with_rounds _ λ n.
              Hoare-paginate n _ _ _
                (λ token.
                  and_then (Host.ask env I E safe step _ _ _ (λ r. refl))
                    λ list. Host.ok env I E safe step _)
                safe)
            λ names.
              and_then (Host.read env I E safe step _)
                λ first. Hoare-for_each _ _ λ ct. when-Stays _ _ (set_literal-Stays _ _ _)

  set_loki_stack_images-Stays :
      (file : String) (target : CoreValues) → Stays (set_loki_stack_images file target)
  unfolding set_loki_stack_images
  set_loki_stack_images-Stays file target = and_then (set-Stays file _ _) λ _.
      and_then (set-Stays file _ _) λ _. and_then (set-Stays file _ _) λ _.
        and_then (set-Stays file _ _) λ _. and_then (set-Stays file _ _) λ _.
          and_then (set-Stays file _ _) λ _. and_then (set-Stays file _ _) λ _.
            and_then (set-Stays file _ _) λ _. and_then (set-Stays file _ _) λ _. set-Stays file _ _

  set_promtail-Stays :
      (file : String) (source target : CoreValues) → Stays (set_promtail file source target)
  unfolding set_promtail append_to_object
  set_promtail-Stays file source target = and_then (delete-Stays file _) λ _.
      and_then (delete-Stays file _) λ _. and_then (delete-Stays file _) λ _.
        and_then (loki_address_to_clients-Stays source file) λ _. and_then (set-Stays file _ _) λ _.
          and_then
            (Hoare-for_each _ _ λ container.
              and_then (Host.parsed env I E safe step _ _) λ json.
                and_then (yaml_key-Stays _) λ k. edit-Stays _ _ _ yq_append_to_object_command)
            λ _. set-Stays file _ _

  set_before_two_dot_six-Stays :
      (file : String) (source target : CoreValues)
      → Stays (set_before_two_dot_six file source target)
  unfolding set_before_two_dot_six set_localpv set_renamed_keys
  set_before_two_dot_six-Stays file source target =
      and_then
        (when-Stays _ _ (
          and_then (set-Stays file _ _) λ _. and_then (set-Stays file _ _) λ _. set-Stays file _ _))
        λ _. and_then (set_loki_stack_images-Stays file target) λ _.
          and_then (set_promtail-Stays file source target) λ _. and_then (set-Stays file _ _) λ _.
            and_then (delete-Stays file _) λ _.
              and_then (set-Stays file _ _)
                λ _. and_then (delete-Stays file _) λ _. set-Stays file _ _

  set_image_tags-Stays : (file : String) (target : CoreValues) → Stays (set_image_tags file target)
  unfolding set_image_tags
  set_image_tags-Stays file target = and_then (set-Stays file _ _) λ _.
      and_then (set-Stays file _ _) λ _. and_then (set-Stays file _ _) λ _.
        and_then (set-Stays file _ _) λ _.
          and_then (set-Stays file _ _) λ _. and_then (set-Stays file _ _) λ _. set-Stays file _ _

  edit_values-Stays :
      (semver : Semver) (source_version target_version : Version) (source target : CoreValues)
      (file : String)
      → Stays (edit_values semver source_version target_version source target file)
  unfolding edit_values set_log_level set_repo_tags set_eventing set_scrape_configs_and_io_timeout
  edit_values-Stays semver source_version target_version source target file =
      and_then (version_of-Stays _) λ o_rc_one. and_then (version_of-Stays _) λ one.
        and_then (when-Stays _ _ (when-Stays _ _ (set-Stays file _ _))) λ _.
          and_then
            (when-Stays _ _ (
              and_then (set-Stays file _ _)
                λ _. and_then (set-Stays file _ _) λ _. set-Stays file _ _))
            λ _. and_then (version_of-Stays _) λ three. and_then (version_of-Stays _) λ four.
              and_then (when-Stays _ _ (when-Stays _ _ (set-Stays file _ _))) λ _.
                and_then (version_of-Stays _) λ five.
                  and_then
                    (when-Stays _ _ (
                      and_then (when-Stays _ _ (set-Stays file _ _))
                        λ _. when-Stays _ _ (set-Stays file _ _)))
                    λ _. and_then (version_of-Stays _) λ six.
                      and_then (when-Stays _ _ (set_before_two_dot_six-Stays file source target))
                        λ _. set_image_tags-Stays file target

  pub generate_values_yaml_file-Stays :
      (source_version target_version : Version) (source target : CoreValues) (buf path dir : String)
      → Stays (generate_values_yaml_file source_version target_version source target buf path dir)
  unfolding generate_values_yaml_file Yq.new merge_files
  generate_values_yaml_file-Stays source_version target_version source target buf path dir =
      and_then (write_to_tempfile-Stays dir buf) λ source_file.
        and_then
          (and_then (command_output-Stays _ _) λ output.
            and_then (Host.check env I E safe step _ _)
              λ _. and_then (Host.read env I E safe step _) λ v4. Host.check env I E safe step _ _)
          λ _.
            and_then
              (and_then (command_output-Stays _ _) λ output.
                and_then (Host.check env I E safe step _ _) λ _. Host.ok env I E safe step _)
              λ merged. and_then (write_to_tempfile-Stays dir merged) λ file.
                and_then (Host.read env I E safe step _) λ semver.
                  and_then
                    (edit_values-Stays semver source_version target_version source target file)
                    λ _. and_then (safe_crd_install-Stays file) λ _. Host.ok env I E safe step file
