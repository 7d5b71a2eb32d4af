-- ===== src/Plugin/Apply/Others.antt =====
-- The commands that only look around, and the request of the latest event, keep what is known.
use mayastor_extensions.Prelude.{String, true, ◌≡◌, refl, Option, none, some, List, [], ◌∷◌, ◌++◌}
use mayastor_extensions.Effect.Hoare.{Hoare-bind, Hoare-pure, Hoare-reads-bind}
use mayastor_extensions.Plugin.Env.{Call, Env, Trace}
use mayastor_extensions.Plugin.Objects.{UpgradeArgs}
use mayastor_extensions.Plugin.Events
use mayastor_extensions.Plugin.Events.{
  create_get_upgrade_resource, get_latest_upgrade_event, log_upgrade_result,
}
use mayastor_extensions.Plugin.Apply.{dummy_apply, list_pods, push_names}
use mayastor_extensions.Plugin.Resources.Seen.{is_other}
use mayastor_extensions.Plugin.Resources.Others
use mayastor_extensions.Plugin.Task.{M, note}

module _ (env : Env) (I E : Trace → Type 0) (safe : (t : Trace) → I t → E t)
    (step : (t : Trace) (c : Call) → is_other c ≡ true → I t → I (c ∷ t)) where
  abbrev Stays : {A : Type 0} → M A → Type 0
  Stays m = Others.Stays env I E safe step m

  told : (c : Call) → is_other c ≡ true → Stays (note c)
  told c k = Others.Stays-note env I E safe step c k

  pub Stays-latest_event : (release : String) → Stays (get_latest_upgrade_event release)
  unfolding get_latest_upgrade_event
  Stays-latest_event release = Hoare-reads-bind _ _ (
      Hoare-bind _ _ (Others.Stays-ask env I E safe step _ _ _ (λ r. refl))
        λ events. Hoare-reads-bind _ _ (Others.Stays-ok_or env I E safe step _ _))

  Stays-log : (message : Option String) → Stays (log_upgrade_result message)
  unfolding log_upgrade_result
  Stays-log none = Hoare-pure tt (λ t h. h)
  Stays-log (some message) =
      Hoare-bind _ _ (Others.Stays-lift env I E safe step _ _) λ event. told _ refl

  pub Stays-get_upgrade : (ns : String) → Stays (create_get_upgrade_resource ns)
  unfolding create_get_upgrade_resource Events.new
  Stays-get_upgrade ns = Hoare-bind _ _ (Others.Stays-release_name env I E safe step ns) λ release.
      Hoare-bind _ _ (Others.Stays-client env I E safe step _)
        λ _. Hoare-bind _ _ (Stays-latest_event release) λ event. Stays-log event.message

  Stays-push_names :
      (pods : List (Option String)) (names : List String) → Stays (push_names pods names)
  unfolding push_names
  Stays-push_names [] names = Hoare-pure names (λ t h. h)
  Stays-push_names (name ∷ pods) names =
      Hoare-bind _ _ (Others.Stays-ok_or env I E safe step name _)
        λ name. Stays-push_names pods (names ++ (name ∷ []))

  Stays-list_pods : (label ns : String) (names : List String) → Stays (list_pods label ns names)
  unfolding list_pods
  Stays-list_pods label ns names = Hoare-bind _ _ (Others.Stays-client env I E safe step _) λ _.
      Hoare-bind _ _ (Others.Stays-ask env I E safe step _ _ _ (λ r. refl))
        λ pods. Stays-push_names pods names

  pub Stays-dummy_apply : (ns : String) (args : UpgradeArgs) → Stays (dummy_apply ns args)
  unfolding dummy_apply
  Stays-dummy_apply ns args = Hoare-bind _ _ (Stays-list_pods _ ns []) λ agents.
      Hoare-bind _ _ (Stays-list_pods _ ns agents) λ names. Hoare-bind _ _ (told _ refl) λ _.
        Hoare-bind _ _ (Stays-list_pods _ ns [])
          λ names. Hoare-bind _ _ (told _ refl) λ _. Hoare-reads-bind _ _ (told _ refl)
