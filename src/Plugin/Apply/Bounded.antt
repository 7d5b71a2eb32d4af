-- ===== src/Plugin/Apply/Bounded.antt =====
-- The plugin's commands end, and the wait for the event of an upgrade is bounded.
use mayastor_extensions.Prelude.{
  ℕ, zero, suc, ◌+◌, ◌≤◌, String, Option, none, some, List, [], ◌∷◌, ◌++◌, str_eq, arith, ◌≡◌,
  subst,
}
use mayastor_extensions.Effect.Ends.{EndsAt, Ends-bind, Ends-if, Ends-weaken, Returns}
use mayastor_extensions.Plugin.Env.{Env, Event, Trace}
use mayastor_extensions.Plugin.Constants.{max_retry_attempts}
use mayastor_extensions.Plugin.Objects.{UpgradeArgs}
use mayastor_extensions.Plugin.Apply.{
  apply, attempt, attempted, await_event, dummy_apply, execute, handle_action, handle_message,
  handle_upgrade_event, list_pods, push_names,
}
use mayastor_extensions.Plugin.Apply.Ends.{
  EndsWithin, Prompts, ask-Prompts, bind, client-Prompts, fail-Prompts, lift-Prompts, note-Prompts,
  ok_or-Prompts, pure-Prompts, reads-Prompts, release_name-Prompts, seconds, slept,
}
use mayastor_extensions.Plugin.Apply.Parts.{
  create-Prompts, delete-Prompts, delete_events-Prompts, events-Prompts, latest_event-Prompts,
}
use mayastor_extensions.Plugin.Task
use mayastor_extensions.Plugin.Task.{M, Outcome, done, failed, pause, pending, ◌>>=◌, ◌>>◌}

message-Prompts : (ns : String) (message : Option String) → Prompts (handle_message ns message)
unfolding handle_message
message-Prompts ns none = fail-Prompts _
message-Prompts ns (some text) =
    bind (lift-Prompts _ _) λ event. bind (note-Prompts _ (omega arith)) λ _. delete-Prompts ns

action-Prompts :
    (ns : String) (message action : Option String) → Prompts (handle_action ns message action)
unfolding handle_action
action-Prompts ns message none = pure-Prompts tt
action-Prompts ns message (some action) =
    Ends-if seconds 0 (str_eq action "Validation Failed") _ _ (message-Prompts ns message)
      (note-Prompts _ (omega arith))

handle-Prompts : (event : Event) (ns : String) → Prompts (handle_upgrade_event event ns)
unfolding handle_upgrade_event
handle-Prompts event ns = action-Prompts ns event.message event.action

attempt-EndsWithin :
    {A : Type 0} (n : ℕ) (task : M A) (handle : A → M (Unit {0})) (otherwise : M (Unit {0}))
    → Prompts task
    → ((a : A) → Prompts (handle a))
    → EndsWithin n otherwise
    → EndsWithin n (attempt task handle otherwise)
unfolding attempt attempted
attempt-EndsWithin {A} n task handle otherwise h hh ho = record {
  at = λ env t. let (r, t') = task env t in go env t r t' (h.at env t);
}
  where
    go :
        (env : Env) (t : Trace) (r : Outcome A) (t' : Trace)
        → EndsAt seconds 0 t (r, t')
        → EndsAt seconds n t (attempted r handle otherwise env t')
    go env t (done a) t' e =
        let h' = (hh a).at env t' in
        record {
          returns = h'.returns;
          bounded = omega (arith, e.bounded, h'.bounded);
          grows = λ I l i. h'.grows I l (e.grows I l i);
        }
    go env t (failed x) t' e =
        let h' = ho.at env t' in
        record {
          returns = h'.returns;
          bounded = omega (arith, e.bounded, h'.bounded);
          grows = λ I l i. h'.grows I l (e.grows I l i);
        }
    go env t pending t' e = absurd e.returns

pause-EndsWithin : (n : ℕ) → EndsWithin n (pause n)
unfolding Task.note
pause-EndsWithin n = record {
  at = λ env t. record { returns = tt; bounded = omega arith; grows = λ I l i. l _ t i };
}

-- Ten seconds for each round.
abbrev wait : ℕ → ℕ
wait zero = 0
wait (suc n) = 10 + wait n

await-EndsWithin : (n : ℕ) (release ns : String) → EndsWithin (wait n) (await_event n release ns)
unfolding await_event
await-EndsWithin zero release ns = pure-Prompts tt
await-EndsWithin (suc n) release ns = Ends-bind seconds 10 (wait n) _ _ (pause-EndsWithin 10) λ _.
    attempt-EndsWithin (wait n) _ _ _ (latest_event-Prompts release)
      (λ event. handle-Prompts event ns) (await-EndsWithin n release ns)

before :
    {A B : Type 0} (n : ℕ) {m : M A} {f : A → M B}
    → Prompts m
    → ((a : A) → EndsWithin n (f a))
    → EndsWithin n (m >>= f)
before n {m} {f} h hf =
    let same : 0 + n ≡ n = omega arith in
    subst (λ k. EndsWithin k (m >>= f)) same (Ends-bind seconds 0 n m f h hf)

apply-EndsWithin : (ns : String) (args : UpgradeArgs) → EndsWithin 60 (apply ns args)
unfolding apply
apply-EndsWithin ns args = before 60 events-Prompts λ _.
    before 60 (release_name-Prompts ns) λ release.
      before 60 (delete_events-Prompts release)
        λ _. before 60 (create-Prompts ns args) λ _. await-EndsWithin max_retry_attempts release ns

push-Prompts : (pods : List (Option String)) (names : List String) → Prompts (push_names pods names)
unfolding push_names
push-Prompts [] names = pure-Prompts names
push-Prompts (name ∷ pods) names =
    bind (ok_or-Prompts name _) λ name. push-Prompts pods (names ++ (name ∷ []))

list_pods-Prompts : (label ns : String) (names : List String) → Prompts (list_pods label ns names)
unfolding list_pods
list_pods-Prompts label ns names =
    bind (client-Prompts _)
      λ _. bind (ask-Prompts _ _ _ (λ r. omega arith)) λ pods. push-Prompts pods names

dummy-Prompts : (ns : String) (args : UpgradeArgs) → Prompts (dummy_apply ns args)
unfolding dummy_apply
dummy-Prompts ns args = bind (list_pods-Prompts _ ns []) λ agents.
    bind (list_pods-Prompts _ ns agents) λ names. bind (note-Prompts _ (omega arith)) λ _.
      bind (list_pods-Prompts _ ns []) λ names.
        bind (note-Prompts _ (omega arith))
          λ _. bind (reads-Prompts _) λ summary. note-Prompts _ (omega arith)

-- Whatever the cluster answers, `UpgradeArgs::execute`, which the upgrade command calls when its
-- preflight checks have passed, returns or fails, and has slept for no more than 60 seconds when it
-- does: it never polls on. The preflight checks are not part of it.
pub execute-Returns :
    (ns : String) (args : UpgradeArgs) (env : Env)
    → let (r, t) = execute ns args env [] in Returns r × (slept t ≤ 60)
unfolding execute
execute-Returns ns args env =
    let h =
      Ends-if seconds 60 args.dry_run _ _
        (Ends-weaken seconds 0 60 _ (omega arith) (dummy-Prompts ns args))
        (apply-EndsWithin ns args) in
    let e = h.at env [] in (e.returns, omega (arith, e.bounded))
