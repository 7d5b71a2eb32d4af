-- ===== src/Plugin/Apply/Done.antt =====
-- What the upgrade command leaves behind.
use mayastor_extensions.Prelude.{
  ℕ, zero, suc, String, Bool, true, false, ◌≡◌, refl, ◌⊎◌, inl, inr, Option, none, some, [], ◌∷◌,
  any, str_eq, Bool-cases,
}
use mayastor_extensions.Effect.Ends.{Hoare-lasting, Lasting}
use mayastor_extensions.Effect.Hoare.{
  Hoare, Hoare-bind, Hoare-fail, Hoare-if, Hoare-pure, Hoare-reads-bind, Hoare-request,
  Hoare-weaken, Post, Post-always, Post-done,
}
use mayastor_extensions.Plugin.Env.{Call, Env, Event, Prompt, Trace}
use mayastor_extensions.Plugin.Constants.{max_retry_attempts}
use mayastor_extensions.Plugin.Objects.{UpgradeArgs}
use mayastor_extensions.Plugin.Resources.{delete_upgrade_resources}
use mayastor_extensions.Plugin.Resources.Seen.{Orderly, is_other}
use mayastor_extensions.Plugin.Resources.Steps.{Orderly-other, Sees, Sees-other}
use mayastor_extensions.Plugin.Resources.Order.{
  AllKindsSeen, all_kinds, create-Orderly, delete-Orderly,
}
use mayastor_extensions.Plugin.Resources.Others
use mayastor_extensions.Plugin.Events
use mayastor_extensions.Plugin.Events.{delete_upgrade_events, get_latest_upgrade_event}
use mayastor_extensions.Plugin.Apply.{
  apply, attempt, attempted, await_event, execute, handle_action, handle_message,
  handle_upgrade_event,
}
use mayastor_extensions.Plugin.Apply.Ends.{seconds}
use mayastor_extensions.Plugin.Apply.Parts.{delete-Prompts}
use mayastor_extensions.Plugin.Apply.Others.{Stays-dummy_apply, Stays-latest_event}
use mayastor_extensions.Plugin.Task
use mayastor_extensions.Plugin.Task.{M, Outcome, done, failed, note, pending, ◌>>=◌, ◌>>◌}

-- The user is told that the validation of the new values failed.
abbrev pub tells : Call → Bool
tells (Call.error Prompt.helm_upgrade_validation_error text) = true
tells _ = false

abbrev WasTold : Trace → Type 0
WasTold t = any tells t ≡ true

WasTold-Lasting : Lasting seconds WasTold
WasTold-Lasting c t h = elim (Bool-cases (tells c)) [ inl e ↦ rw e refl | inr e ↦ rw e h ]

-- The match on a result: a failure is passed over.
Hoare-attempt :
    {A : Type 0} {env : Env} {P F E R : Trace → Type 0} {Q : A → Trace → Type 0} (task : M A)
    (handle : A → M (Unit {0})) (otherwise : M (Unit {0}))
    → Hoare env P task Q F
    → ((a : A) → Hoare env (Q a) (handle a) (λ _. R) E)
    → Hoare env F otherwise (λ _. R) E
    → ((t : Trace) → F t → E t)
    → Hoare env P (attempt task handle otherwise) (λ _. R) E
unfolding attempt attempted Task.stuck
Hoare-attempt {A} {env} {P} {F} {E} {R} {Q} task handle otherwise h hh ho safe = record {
  at = λ t p. let (r, t') = task env t in go r t' (h.at t p);
}
  where
    go :
        (r : Outcome A) (t : Trace)
        → Post Q F r t
        → let (o, t') = attempted r handle otherwise env t in Post (λ _. R) E o t'
    go (done a) t q = (hh a).at t q
    go (failed e) t f = ho.at t f
    go pending t f = safe t f

module _ (env : Env) where
  -- All five objects were last seen there, or the user was told of a failed validation and all five
  -- were last seen gone.
  abbrev pub Settled : Trace → Type 0
  Settled t = AllKindsSeen env true t ⊎ (WasTold t × AllKindsSeen env false t)

  abbrev After : Trace → Type 0
  After t = Orderly env t × Settled t

  module _ (release : String) where
    abbrev Created : Trace → Type 0
    Created = Sees env true release all_kinds

    abbrev Settles : M (Unit {0}) → Type 0
    Settles m = Hoare env Created m (λ _. After) (Orderly env)

    stays-Settled : (t : Trace) → Created t → After t
    stays-Settled t h = (h.0, inl (release, h.1))

    step : (t : Trace) (c : Call) → is_other c ≡ true → Created t → Created (c ∷ t)
    step = Sees-other env true release all_kinds

    tell :
        (text : String)
        → Hoare env Created
            (note (Call.error Prompt.helm_upgrade_validation_error text))
            (λ _ t. WasTold t × Orderly env t)
            (Orderly env)
    unfolding note
    tell text = record { at = λ t h. (refl, (tt, h.0)) }

    message-Settles : (ns : String) (message : Option String) → Settles (handle_message ns message)
    unfolding handle_message
    message-Settles ns none = Hoare-fail _ (λ t h. h.0)
    message-Settles ns (some text) =
        Hoare-bind _ _ (Others.Stays-lift env Created (Orderly env) (λ t h. h.0) step _ _) λ event.
          Hoare-bind _ _ (tell event.message) λ _.
            Hoare-weaken (λ t h. h)
              (Hoare-lasting seconds 0 (delete_upgrade_resources ns) WasTold WasTold-Lasting
                (delete-Prompts ns) (delete-Orderly env ns))
              (λ _ t q. (q.1.0, inr (q.0, q.1.1)))

    noted : (c : Call) → is_other c ≡ true → Settles (note c)
    noted c k =
        Hoare-weaken (λ t h. h) (Others.Stays-note env Created (Orderly env) (λ t h. h.0) step c k)
          (λ _ t h. stays-Settled t h)

    action-Settles :
        (ns : String) (message action : Option String) → Settles (handle_action ns message action)
    unfolding handle_action
    action-Settles ns message none = Hoare-pure tt stays-Settled
    action-Settles ns message (some action) =
        Hoare-if (str_eq action "Validation Failed") _ _ (λ _. message-Settles ns message)
          (λ _. noted _ refl)

    event-Settles : (event : Event) (ns : String) → Settles (handle_upgrade_event event ns)
    unfolding handle_upgrade_event
    event-Settles event ns = action-Settles ns event.message event.action

    -- A failed request of the events changes nothing.
    await-Settles : (n : ℕ) (polled ns : String) → Settles (await_event n polled ns)
    unfolding await_event
    await-Settles zero polled ns = Hoare-pure tt stays-Settled
    await-Settles (suc n) polled ns =
        Hoare-bind _ _ (Others.Stays-note env Created (Orderly env) (λ t h. h.0) step _ refl) λ _.
          Hoare-attempt _ _ _ (Stays-latest_event env Created Created (λ t h. h) step polled)
            (λ event. event-Settles event ns) (await-Settles n polled ns) (λ t h. h.0)

  Created-some : Trace → Type 0
  Created-some t = Orderly env t × AllKindsSeen env true t

  await-After :
      (n : ℕ) (polled ns : String)
      → Hoare env Created-some (await_event n polled ns) (λ _. After) (Orderly env)
  unfolding Created-some
  await-After n polled ns = record {
    at = λ t h. (await-Settles h.1.0 n polled ns).at t (h.0, h.1.1);
  }

  forget :
      (release : String)
      → Hoare env (Orderly env) (delete_upgrade_events release) (λ _. Orderly env) (Orderly env)
  unfolding delete_upgrade_events
  forget release = Hoare-reads-bind _ _ (Hoare-request _ _ _ (λ t a h. (tt, h)) (λ t s h. (tt, h)))

  apply-After :
      (ns : String) (args : UpgradeArgs)
      → Hoare env (Orderly env) (apply ns args) (λ _. After) (Orderly env)
  unfolding apply Events.new Created-some
  apply-After ns args =
      Hoare-bind _ _
        (Others.Stays-client env (Orderly env) (Orderly env) (λ t h. h) (Orderly-other env) _)
        λ _.
          Hoare-bind _ _
            (Others.Stays-release_name env (Orderly env) (Orderly env) (λ t h. h)
              (Orderly-other env) ns)
            λ release. Hoare-bind _ _ (forget release) λ _.
              Hoare-bind _ _ (create-Orderly env ns args)
                λ _. await-After max_retry_attempts release ns

-- When the upgrade command, which is no dry run, returns without an error, all five of its objects
-- were last seen in the cluster, or the user was told that the new values failed validation, and
-- all five were last seen gone.
pub apply-Settled :
    (ns : String) (args : UpgradeArgs) (env : Env)
    → (apply ns args env []).0 ≡ done tt
    → Settled env (apply ns args env []).1
apply-Settled ns args env e =
    let (r, t) = apply ns args env [] in
    (Post-done (λ _. After env) (Orderly env) r t tt e ((apply-After env ns args).at [] tt)).1

execute-Hoare :
    (ns : String) (args : UpgradeArgs) (env : Env)
    → Hoare env (Orderly env) (execute ns args) (λ _. Orderly env) (Orderly env)
unfolding execute
execute-Hoare ns args env =
    Hoare-if args.dry_run _ _
      (λ _.
        Stays-dummy_apply env (Orderly env) (Orderly env) (λ t h. h) (Orderly-other env) ns args)
      (λ _. Hoare-weaken (λ t h. h) (apply-After env ns args) (λ _ t h. h.0))

-- However the upgrade command ends, it has created the Job only while the account that the Job runs
-- under, the ConfigMap that it mounts, and the role with its binding were last seen there, and has
-- deleted the account, the role or the binding only while the Job was last seen gone.
pub execute-Orderly :
    (ns : String) (args : UpgradeArgs) (env : Env) → Orderly env (execute ns args env []).1
execute-Orderly ns args env =
    let (r, t) = execute ns args env [] in
    Post-always r t (λ _ t h. h) ((execute-Hoare ns args env).at [] tt)
