-- ===== src/Plugin/Resources/Order.antt =====
-- The whole of creating and of deleting an upgrade's objects.
use mayastor_extensions.Prelude.{String, Bool, true, false, refl, Option, none, some, List, [], ◌∷◌}
use mayastor_extensions.Effect.Hoare.{
  Hoare, Hoare-bind, Hoare-pure, Hoare-reads-bind, Hoare-request, Hoare-weaken,
}
use mayastor_extensions.Plugin.Env.{Env, Found, Kind, Object, Trace}
use mayastor_extensions.Plugin.Role.{upgrade_job_cluster_role}
use mayastor_extensions.Plugin.Objects.{
  UpgradeArgs, upgrade_configmap, upgrade_job, upgrade_job_cluster_role_binding,
  upgrade_job_service_account,
}
use mayastor_extensions.Plugin.SetFile.{Map, create_config_map_data}
use mayastor_extensions.Plugin.Resources.{
  Actions, cluster_role_actions, cluster_role_binding_actions, config_map_act, config_map_actions,
  create_job, create_object, create_upgrade_resources, default_args, delete_object,
  delete_upgrade_resources, job_actions, name_of, service_account_actions,
}
use mayastor_extensions.Plugin.Resources.Seen.{AllSeen, Orderly}
use mayastor_extensions.Plugin.Resources.Steps.{
  Looked, Sees, Sees-other, act-Creates, act-Deletes, act-Gone, act-Looked, look-Looked,
  Orderly-other, create_object-Creates, delete_object-Deletes,
}
use mayastor_extensions.Plugin.Resources.Others.{
  Stays-config_map_data, Stays-deployment, Stays-image, Stays-new, Stays-set_file_args,
}
use mayastor_extensions.Plugin.Task.{M, reads, ◌>>=◌}

abbrev account_only : List Kind
account_only = Kind.service_account ∷ []

abbrev with_role : List Kind
with_role = Kind.cluster_role ∷ account_only

abbrev with_binding : List Kind
with_binding = Kind.cluster_role_binding ∷ with_role

abbrev with_config_map : List Kind
with_config_map = Kind.config_map ∷ with_binding

-- All five kinds, the last one created first.
abbrev pub all_kinds : List Kind
all_kinds = Kind.job ∷ with_config_map

module _ (env : Env) where
  -- From these kinds of objects last seen as `b` says to those.
  abbrev Leads : {A : Type 0} → Bool → String → List Kind → M A → List Kind → Type 0
  Leads b release before m after =
      Hoare env (Sees env b release before) m (λ _. Sees env b release after) (Orderly env)

  keeps :
      (b : Bool) (release : String) (kinds : List Kind) (t : Trace)
      → Sees env b release kinds t
      → Orderly env t
  keeps b release kinds t h = h.0

  module _ (release ns : String) where
    create-account :
        Leads true release [] (service_account_actions release ns Actions.create) account_only
    unfolding service_account_actions upgrade_job_service_account
    create-account = Hoare-reads-bind _ _ (
        act-Creates env release Kind.service_account [] _ tt
          (create_object-Creates env release [] (Object.service_account _) tt refl (λ t r h. tt)))

    create-role :
        Leads true release account_only (cluster_role_actions release ns Actions.create) with_role
    unfolding cluster_role_actions upgrade_job_cluster_role
    create-role = Hoare-reads-bind _ _ (
        act-Creates env release Kind.cluster_role account_only _ (refl, tt)
          (create_object-Creates env release account_only (Object.cluster_role _) (refl, tt) refl
            (λ t r h. tt)))

    create-binding :
        Leads true release with_role
          (cluster_role_binding_actions release ns Actions.create)
          with_binding
    unfolding cluster_role_binding_actions upgrade_job_cluster_role_binding
    create-binding = Hoare-reads-bind _ _ (
        Hoare-bind _ _
          (look-Looked env true release Kind.cluster_role_binding with_role (refl, (refl, tt)))
          λ found. Hoare-reads-bind _ _ (
            act-Looked env release Kind.cluster_role_binding with_role _
              (create_object-Creates env release with_role (Object.cluster_role_binding _)
                (refl, (refl, tt)) refl (λ t r h. tt))
              found))

    -- Reading the files keeps what is known.
    config_map_data-Keeps :
        (b : Bool) (kinds : List Kind) (files : List String)
        → Leads b release kinds (create_config_map_data files) kinds
    config_map_data-Keeps b kinds files =
        Stays-config_map_data env (Sees env b release kinds) (Orderly env) (keeps b release kinds)
          (Sees-other env b release kinds) files

    create-map :
        (entries : Map)
        → Leads true release with_binding
            (create_object Kind.config_map
              (name_of env release Kind.config_map)
              (Object.config_map (upgrade_configmap env.version_tag entries ns release)))
            with_config_map
    unfolding upgrade_configmap
    create-map entries =
        create_object-Creates env release with_binding (Object.config_map _)
          (refl, (refl, (refl, tt))) refl (λ t r h. tt)

    -- A ConfigMap that is there is not known to be there between its deletion and its creation.
    replace-map :
        (entries : Map)
        → Leads true release with_binding
            (delete_object Kind.config_map (name_of env release Kind.config_map) >>= λ _.
              reads (λ env. env.version_tag) >>= λ version.
              create_object Kind.config_map
                (name_of env release Kind.config_map)
                (Object.config_map (upgrade_configmap version entries ns release)))
            with_config_map
    unfolding delete_object
    replace-map entries =
        Hoare-bind _ _ (Hoare-request _ _ _ (λ t a h. ((tt, h.0), h.1)) (λ t s h. (tt, h.0)))
          λ _. Hoare-reads-bind _ _ (create-map entries)

    map_act-Creates :
        (files : List String) (entries : Map) (found : Option Found)
        → Leads true release with_binding
            (config_map_act release ns
              (name_of env release Kind.config_map)
              files
              entries
              Actions.create
              found)
            with_config_map
    unfolding config_map_act
    map_act-Creates files entries (some found) = replace-map entries
    map_act-Creates files entries none =
        Hoare-bind _ _ (config_map_data-Keeps true with_binding files)
          λ again. Hoare-reads-bind _ _ (create-map again.0)

    create-config_map :
        (args : UpgradeArgs)
        → Leads true release with_binding
            (config_map_actions release ns Actions.create args)
            with_config_map
    unfolding config_map_actions
    create-config_map args = Hoare-reads-bind _ _ (
        Hoare-bind _ _ (config_map_data-Keeps true with_binding args.set_file) λ made.
          Hoare-bind _ _
            (Hoare-weaken (λ t h. h)
              (look-Looked env true release Kind.config_map with_binding (refl, (refl, (refl, tt))))
              (λ found t l. l.1))
            λ found.
              Hoare-bind _ _ (map_act-Creates args.set_file made.0 found)
                λ _. Hoare-pure _ (λ t h. h))

    create_job-Creates :
        (args : UpgradeArgs) (map : Option Map)
        → Leads true release with_config_map
            (create_job release ns (name_of env release Kind.job) args map)
            all_kinds
    unfolding create_job upgrade_job
    create_job-Creates args map =
        let safe = keeps true release with_config_map in
        let step = Sees-other env true release with_config_map in
        let I = Sees env true release with_config_map in
        Hoare-bind _ _ (Stays-deployment env I (Orderly env) safe step ns) λ deployment.
          Hoare-bind _ _ (Stays-image env I (Orderly env) safe step deployment) λ img.
            Hoare-bind _ _ (Stays-set_file_args env I (Orderly env) safe step args.set_file map)
              λ set_file. Hoare-reads-bind _ _ (
                Hoare-reads-bind _ _ (
                  create_object-Creates env release with_config_map (Object.job _)
                    (refl, (refl, (refl, (refl, tt)))) refl
                    (λ t r h. (release, refl, h.1.1.1.0, h.0, (h.1.1.0, (h.1.0, tt))))))

    create-job :
        (args : UpgradeArgs) (map : Option Map)
        → Leads true release with_config_map
            (job_actions release ns Actions.create args map)
            all_kinds
    unfolding job_actions
    create-job args map = Hoare-reads-bind _ _ (
        act-Creates env release Kind.job with_config_map _ (refl, (refl, (refl, (refl, tt))))
          (create_job-Creates args map))

  abbrev gone_with_map : List Kind
  gone_with_map = Kind.config_map ∷ Kind.job ∷ []

  abbrev gone_with_binding : List Kind
  gone_with_binding = Kind.cluster_role_binding ∷ gone_with_map

  abbrev gone_with_role : List Kind
  gone_with_role = Kind.cluster_role ∷ gone_with_binding

  module _ (release ns : String) where
    delete-job :
        Leads false release []
          (job_actions release ns Actions.delete default_args none)
          (Kind.job ∷ [])
    unfolding job_actions
    delete-job = Hoare-reads-bind _ _ (act-Deletes env release Kind.job [] _ tt (λ t r h. tt))

    map_act-Deletes :
        (files : List String) (entries : Map) (found : Option Found)
        → Hoare env
            (Looked env false release Kind.config_map (Kind.job ∷ []) found)
            (config_map_act release ns
              (name_of env release Kind.config_map)
              files
              entries
              Actions.delete
              found)
            (λ _. Sees env false release gone_with_map)
            (Orderly env)
    unfolding config_map_act
    map_act-Deletes files entries none = Hoare-pure tt (λ t l. (l.1.0, (l.0, l.1.1)))
    map_act-Deletes files entries (some found) =
        Hoare-weaken (λ t l. l.1)
          (delete_object-Deletes env release Kind.config_map (Kind.job ∷ []) (refl, tt)
            (λ t r h. tt))
          (λ _ t s. s)

    delete-config_map :
        Leads false release
          (Kind.job ∷ [])
          (config_map_actions release ns Actions.delete default_args)
          gone_with_map
    unfolding config_map_actions
    delete-config_map = Hoare-reads-bind _ _ (
        Hoare-bind _ _ (config_map_data-Keeps release ns false (Kind.job ∷ []) []) λ made.
          Hoare-bind _ _ (look-Looked env false release Kind.config_map (Kind.job ∷ []) (refl, tt))
            λ found. Hoare-bind _ _ (map_act-Deletes [] made.0 found) λ _. Hoare-pure _ (λ t h. h))

    delete-binding :
        Leads false release gone_with_map
          (cluster_role_binding_actions release ns Actions.delete)
          gone_with_binding
    unfolding cluster_role_binding_actions
    delete-binding = Hoare-reads-bind _ _ (
        Hoare-bind _ _
          (look-Looked env false release Kind.cluster_role_binding gone_with_map (refl, (refl, tt)))
          λ found. Hoare-reads-bind _ _ (
            act-Gone env release Kind.cluster_role_binding gone_with_map _ (refl, (refl, tt))
              (λ t r h. (release, refl, (h.1.0, tt))) found))

    delete-role :
        Leads false release gone_with_binding
          (cluster_role_actions release ns Actions.delete)
          gone_with_role
    unfolding cluster_role_actions
    delete-role = Hoare-reads-bind _ _ (
        act-Deletes env release Kind.cluster_role gone_with_binding _ (refl, (refl, (refl, tt)))
          (λ t r h. (release, refl, (h.1.1.0, tt))))

    delete-account :
        Leads false release gone_with_role
          (service_account_actions release ns Actions.delete)
          (Kind.service_account ∷ gone_with_role)
    unfolding service_account_actions
    delete-account = Hoare-reads-bind _ _ (
        act-Deletes env release Kind.service_account gone_with_role _
          (refl, (refl, (refl, (refl, tt)))) (λ t r h. (release, refl, (h.1.1.1.0, tt))))

  -- All five objects of some release.
  abbrev pub AllKindsSeen : Bool → Trace → Type 0
  AllKindsSeen b t = (release : String) × AllSeen env b release all_kinds t

  pub create-Orderly :
      (ns : String) (args : UpgradeArgs)
      → Hoare env
          (Orderly env)
          (create_upgrade_resources ns args)
          (λ _ t. Orderly env t × AllKindsSeen true t)
          (Orderly env)
  unfolding create_upgrade_resources
  create-Orderly ns args =
      Hoare-bind _ _ (Stays-new env (Orderly env) (Orderly env) (λ t h. h) (Orderly-other env) ns)
        λ release.
          Hoare-weaken {P' = Sees env true release []} (λ t h. (h, tt))
            (Hoare-bind _ _ (create-account release ns) λ _.
              Hoare-bind _ _ (create-role release ns) λ _.
                Hoare-bind _ _ (create-binding release ns) λ _.
                  Hoare-bind _ _ (create-config_map release ns args)
                    λ map. create-job release ns args (some map))
            (λ _ t h. (h.0, (release, h.1)))

  pub delete-Orderly :
      (ns : String)
      → Hoare env
          (Orderly env)
          (delete_upgrade_resources ns)
          (λ _ t. Orderly env t × AllKindsSeen false t)
          (Orderly env)
  unfolding delete_upgrade_resources
  delete-Orderly ns =
      Hoare-bind _ _ (Stays-new env (Orderly env) (Orderly env) (λ t h. h) (Orderly-other env) ns)
        λ release.
          Hoare-weaken {P' = Sees env false release []} (λ t h. (h, tt))
            (Hoare-bind _ _ (delete-job release ns) λ _.
              Hoare-bind _ _ (delete-config_map release ns) λ _.
                Hoare-bind _ _ (delete-binding release ns)
                  λ _. Hoare-bind _ _ (delete-role release ns) λ _. delete-account release ns)
            (λ _ t h.
              (h.0, (release, (h.1.1.1.1.1.0, (h.1.1.1.1.0, (h.1.1.1.0, (h.1.1.0, (h.1.0, tt))))))))
