-- ===== src/Upgrade/Helm/Values/Tags.antt =====
-- The image tags that are always set.
use mayastor_extensions.Prelude.{
  ℕ, zero, suc, ◌≡◌, refl, ◌⊎◌, inl, inr, true, String, List, [], ◌∷◌, All, str_append,
}
use mayastor_extensions.Upgrade.Env.{Call, Env, Trace, good, yq}
use mayastor_extensions.Upgrade.Version.{Version}
use mayastor_extensions.Upgrade.Values.{CoreValues}
use mayastor_extensions.Upgrade.Job.{Outcome, done, failed, pending, M}
use mayastor_extensions.Upgrade.Job.Hoare.{
  Hoare, Hoare-bind, Hoare-ensure, Hoare-pure, Hoare-reads-bind, Hoare-request, Hoare-weaken, Post,
  Post-done,
}
use mayastor_extensions.Upgrade.Helm.Yq.{command_output, edit, literal, set_literal_value, yaml_key}
use mayastor_extensions.Upgrade.Helm.Values.{set}
use mayastor_extensions.Upgrade.Helm.Values.Generate.{
  edit_values, generate_values_yaml_file, set_image_tags,
}
use mayastor_extensions.Upgrade.Product.Edits.{safe_crd_install-Stays}

-- yq was told to set the key to the value in the file, and reported success.
abbrev IsSetting : String → String × String → Call → Type 0
IsSetting file (key, value) (yq args val (good output)) =
    (args ≡ "-i" ∷ str_append key (str_append " = " (literal value).0) ∷ file ∷ [])
    × (val ≡ (literal value).1)
    × (output.success ≡ true)
IsSetting file kv call = ⊥

abbrev WasSet : String → Trace → String × String → Type 0
WasSet file [] kv = ⊥
WasSet file (call ∷ t) kv = IsSetting file kv call ⊎ WasSet file t kv

abbrev pub AllSet : String → List (String × String) → Trace → Type 0
AllSet file kvs t = All (WasSet file t) kvs

-- The keys that always get the target's values.
abbrev pub image_tags : CoreValues → List (String × String)
image_tags target =
    (".csi.image.resizerTag", target.csi_resizer_image_tag)
    ∷ (".csi.image.registrarTag", target.csi_node_driver_registrar_image_tag)
    ∷ (".csi.image.snapshotControllerTag", target.csi_snapshot_controller_image_tag)
    ∷ (".csi.image.snapshotterTag", target.csi_snapshotter_image_tag)
    ∷ (".csi.image.attacherTag", target.csi_attacher_image_tag)
    ∷ (".csi.image.provisionerTag", target.csi_provisioner_image_tag)
    ∷ (".image.tag", target.image_tag)
    ∷ []

AllSet-later :
    (file : String) (kvs : List (String × String)) (t : Trace) (call : Call)
    → AllSet file kvs t
    → AllSet file kvs (call ∷ t)
AllSet-later file [] t call h = tt
AllSet-later file (kv ∷ kvs) t call h = (inr h.0, AllSet-later file kvs t call h.1)

abbrev drop : ℕ → List (String × String) → List (String × String)
drop zero kvs = kvs
drop (suc n) [] = []
drop (suc n) (kv ∷ kvs) = drop n kvs

abbrev from : CoreValues → ℕ → List (String × String)
from target n = drop n (image_tags target)

module _ (env : Env) where
  abbrev Anything : Trace → Type 0
  Anything t = Unit {0}

  Hoare-any : {A : Type 0} {P : Trace → Type 0} (m : M A) → Hoare env P m (λ _. Anything) Anything
  Hoare-any {A} m = record { at = λ t h. let (r, t') = m env t in go r t' }
    where
      go : (r : Outcome A) (t : Trace) → Post (λ _. Anything) Anything r t
      go (done a) t = tt
      go (failed e) t = tt
      go pending t = tt

  yaml_key-same :
      (P : Trace → Type 0) (key : String)
      → Hoare env P (yaml_key key) (λ k t. (k ≡ key) × P t) Anything
  unfolding yaml_key
  yaml_key-same P key = Hoare-reads-bind _ _ (
      Hoare-bind {Q = λ _. P} _ _ (Hoare-ensure _ _ (λ _ t h. h) (λ t h. tt))
        λ _. Hoare-pure key (λ t h. (refl, h)))

  set-AllSet :
      (file : String) (kvs : List (String × String)) (key value : String)
      → Hoare env
          (AllSet file kvs)
          (set file key value)
          (λ _. AllSet file ((key, value) ∷ kvs))
          Anything
  unfolding set set_literal_value edit command_output
  set-AllSet file kvs key value = Hoare-bind _ _ (yaml_key-same (AllSet file kvs) key) λ k.
      Hoare-bind {Q = λ output t. output.success ≡ true → AllSet file ((key, value) ∷ kvs) t} _ _
        (Hoare-request _ _ _
          (λ t output h s. (
            inl (rw h.0 refl, refl, s),
            AllSet-later file kvs t
                (yq ("-i" ∷ str_append k (str_append " = " (literal value).0) ∷ file ∷ [])
                  (literal value).1 (good output))
                h.1,
          ))
          (λ t s h. tt))
        λ output. Hoare-ensure output.success _ (λ s t h. h s) (λ t h. tt)

  set_image_tags-AllSet :
      (file : String) (target : CoreValues)
      → Hoare env Anything
          (set_image_tags file target)
          (λ _. AllSet file (image_tags target))
          Anything
  unfolding set_image_tags
  set_image_tags-AllSet file target =
      Hoare-bind _ _ (Hoare-weaken (λ t h. tt) (set-AllSet file [] _ _) (λ _ t h. h)) λ _.
        Hoare-bind _ _ (set-AllSet file (from target 6) _ _) λ _.
          Hoare-bind _ _ (set-AllSet file (from target 5) _ _) λ _.
            Hoare-bind _ _ (set-AllSet file (from target 4) _ _) λ _.
              Hoare-bind _ _ (set-AllSet file (from target 3) _ _) λ _.
                Hoare-bind _ _ (set-AllSet file (from target 2) _ _)
                  λ _. set-AllSet file (from target 1) _ _

  generate-AllSet :
      (source_version target_version : Version) (source target : CoreValues) (buf path dir : String)
      → Hoare env Anything
          (generate_values_yaml_file source_version target_version source target buf path dir)
          (λ file. AllSet file (image_tags target))
          Anything
  unfolding generate_values_yaml_file edit_values
  generate-AllSet source_version target_version source target buf path dir =
      Hoare-bind _ _ (Hoare-any _) λ source_file. Hoare-bind _ _ (Hoare-any _) λ _.
        Hoare-bind _ _ (Hoare-any _) λ merged. Hoare-bind _ _ (Hoare-any _) λ file.
          Hoare-bind _ _ (Hoare-any _) λ semver.
            Hoare-bind {Q = λ _. AllSet file (image_tags target)} _ _
              (Hoare-bind _ _ (Hoare-any _) λ o_rc_one. Hoare-bind _ _ (Hoare-any _) λ one.
                Hoare-bind _ _ (Hoare-any _) λ _. Hoare-bind _ _ (Hoare-any _) λ _.
                  Hoare-bind _ _ (Hoare-any _) λ three. Hoare-bind _ _ (Hoare-any _) λ four.
                    Hoare-bind _ _ (Hoare-any _) λ _. Hoare-bind _ _ (Hoare-any _) λ five.
                      Hoare-bind _ _ (Hoare-any _) λ _.
                        Hoare-bind _ _ (Hoare-any _) λ six.
                          Hoare-bind _ _ (Hoare-any _) λ _. set_image_tags-AllSet file target)
              λ _.
                Hoare-bind _ _
                  (safe_crd_install-Stays env (AllSet file (image_tags target)) Anything (λ t h. tt)
                    (λ t c k h. AllSet-later file (image_tags target) t c h) file)
                  λ _. Hoare-pure file (λ t h. h)

-- Whatever the versions, when the values file for the upgrade has been made, yq has set the image tag
-- and the six tags of the CSI sidecars in it to the target's values, each with success.
pub generate_values_yaml_file-AllSet :
    (env : Env) (source_version target_version : Version) (source target : CoreValues)
    (buf path dir file : String)
    → (generate_values_yaml_file source_version target_version source target buf path dir env []).0
      ≡ done file
    → AllSet file
        (image_tags target)
        (generate_values_yaml_file source_version target_version source target buf path dir env
          []).1
generate_values_yaml_file-AllSet env source_version target_version source target buf path dir file
      e =
    let (r, t) =
      generate_values_yaml_file source_version target_version source target buf path dir env [] in
    Post-done (λ file. AllSet file (image_tags target)) (Anything env) r t file e
      ((generate-AllSet env source_version target_version source target buf path dir).at [] tt)
