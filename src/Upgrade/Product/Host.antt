-- ===== src/Upgrade/Product/Host.antt =====
-- What the job does on its own host keeps what calls of that kind keep: reading the release and the
-- charts.
use mayastor_extensions.Prelude.{String, Bool, true, false, ◌≡◌, refl, Option, List, [], ◌∷◌}
use mayastor_extensions.Upgrade.Error.{Error, helm_get_values_command, helm_list_command}
use mayastor_extensions.Upgrade.Env.{Env, Trace, Call, Reply, HelmReleaseElement}
use mayastor_extensions.Upgrade.Job.{M, ensure, lift, pure, reads, request, ◌>>=◌}
use mayastor_extensions.Upgrade.Job.Hoare.{
  Hoare-bind, Hoare-ensure, Hoare-fail, Hoare-if, Hoare-lift, Hoare-ok_or, Hoare-pure, Hoare-reads,
}
use mayastor_extensions.Upgrade.Job.Keeps.{Keeps, Keeps-request}
use mayastor_extensions.Upgrade.Path.{version_from_chart_yaml_file, version_from_release_chart}
use mayastor_extensions.Upgrade.Helm.Client.{
  HelmReleaseClient, find_release, get_values_as_yaml, list_as_yaml, release_info, run_helm,
}
use mayastor_extensions.Upgrade.Product.Kinds.{is_host, is_listing, is_real_upgrade}

pub listing-host : (c : Call) → is_listing c ≡ true → is_host c ≡ true
listing-host c h = rw h refl

module _ (env : Env) (I E : Trace → Type 0) (safe : (t : Trace) → I t → E t)
    (step : (t : Trace) (c : Call) → is_host c ≡ true → I t → I (c ∷ t)) where
  abbrev pub Stays : {A : Type 0} → M A → Type 0
  Stays m = Keeps env is_host I E safe step m

  abbrev pub ask :
      {A : Type 0} (f : Env → Trace → Reply A) (log : Reply A → Call) (e : String → Error)
      → ((r : Reply A) → is_host (log r) ≡ true)
      → Stays (request f log e)
  ask f log e k = Keeps-request env is_host I E safe step f log e k

  abbrev pub ok : {A : Type 0} (a : A) → Stays (pure a)
  ok a = Hoare-pure a (λ t h. h)

  abbrev pub parsed : {A : Type 0} (r : Env → Reply A) (e : String → Error) → Stays (lift r e)
  parsed r e = Hoare-lift r e (λ t a eq h. h) safe

  abbrev pub read : {A : Type 0} (f : Env → A) → Stays (reads f)
  read f = Hoare-reads f (λ t h. h)

  abbrev pub check : (b : Bool) (e : Error) → Stays (ensure b e)
  check b e = Hoare-ensure b e (λ _ t h. h) safe

  abbrev pub and_then :
      {A B : Type 0} {m : M A} {f : A → M B} → Stays m → ((a : A) → Stays (f a)) → Stays (m >>= f)
  and_then {m = m} {f = f} hm hf = Hoare-bind m f hm hf

  run_helm-Stays :
      (args : List String) (context : String → List String → String → Error)
      → is_real_upgrade args ≡ false
      → Stays (run_helm args context)
  unfolding run_helm
  run_helm-Stays args context h =
      and_then (ask _ _ _ (λ r. rw h refl)) λ output. and_then (check _ _) λ _. ok output

  pub get_values_as_yaml-Stays :
      (c : HelmReleaseClient) (release_name : String) (args : Option (List String))
      → Stays (get_values_as_yaml c release_name args)
  unfolding get_values_as_yaml
  get_values_as_yaml-Stays c release_name args =
      and_then (run_helm-Stays _ helm_get_values_command refl) λ output. ok _

  find_release-Stays :
      (namespace release_name : String) (l : List HelmReleaseElement)
      → Stays (find_release namespace release_name l)
  unfolding find_release
  find_release-Stays namespace release_name [] = Hoare-fail _ safe
  find_release-Stays namespace release_name (r ∷ rs) =
      Hoare-if _ _ _ (λ _. ok r) (λ _. find_release-Stays namespace release_name rs)

  pub release_info-Stays :
      (c : HelmReleaseClient) (release_name : String) → Stays (release_info c release_name)
  unfolding release_info list_as_yaml
  release_info-Stays c release_name =
      and_then (and_then (run_helm-Stays _ helm_list_command refl) λ output. parsed _ _)
        λ l. find_release-Stays c.namespace release_name l

  pub version_from_release_chart-Stays : (chart : String) → Stays (version_from_release_chart chart)
  unfolding version_from_release_chart
  version_from_release_chart-Stays chart =
      and_then (Hoare-ok_or _ _ (λ t a eq h. h) safe) λ parts. parsed _ _

  pub version_from_chart_yaml_file-Stays :
      (path : String) → Stays (version_from_chart_yaml_file path)
  unfolding version_from_chart_yaml_file
  version_from_chart_yaml_file-Stays path =
      and_then (ask _ _ _ (λ r. refl)) λ yaml. and_then (parsed _ _) λ chart. ok _
