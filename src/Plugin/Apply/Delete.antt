-- ===== src/Plugin/Apply/Delete.antt =====
-- When the objects of an upgrade may be deleted on request.
use mayastor_extensions.Prelude.{
  String, Bool, true, false, not, ◌&&◌, ◌||◌, ◌≡◌, refl, ap, ◌∙◌, ◌⊎◌, inl, inr, Option, none, some,
  [], ◌∷◌, any, str_eq, eq_refl, if◌then◌else◌, Bool-cases,
}
use mayastor_extensions.Effect.Ends.{Hoare-Ends, Lasting}
use mayastor_extensions.Effect.Hoare.{
  Hoare, Hoare-bind, Hoare-ok_or, Hoare-pure, Hoare-reads-bind, Hoare-request, Hoare-weaken,
  Post-always, Post-done, Post-weaken,
}
use mayastor_extensions.Plugin.Env.{Call, Env, Found, JobStatus, Kind, Prompt, Trace, good}
use mayastor_extensions.Plugin.Resources
use mayastor_extensions.Plugin.Resources.{
  delete_upgrade_resources, is_upgrade_job_completed, name_of, new, succeeded_once,
}
use mayastor_extensions.Plugin.Resources.Seen.{Orderly, is_other}
use mayastor_extensions.Plugin.Resources.Steps.{Orderly-other}
use mayastor_extensions.Plugin.Resources.Order.{AllKindsSeen, delete-Orderly}
use mayastor_extensions.Plugin.Resources.Others
use mayastor_extensions.Plugin.Apply.{delete}
use mayastor_extensions.Plugin.Apply.Ends.{seconds}
use mayastor_extensions.Plugin.Apply.Parts.{delete-Prompts}
use mayastor_extensions.Plugin.Task.{done, error, note, pure}

-- The status of the Job says that it has succeeded.
abbrev status_succeeded : Option JobStatus → Bool
status_succeeded none = false
status_succeeded (some status) = succeeded_once status.succeeded

abbrev found_succeeded : Option Found → Bool
found_succeeded none = false
found_succeeded (some job) = status_succeeded job.status

-- The call shows the release's Job to have succeeded.
abbrev shows_success : Env → String → Call → Bool
shows_success env release (Call.get_opt Kind.job name (good found)) =
    str_eq name (name_of env release Kind.job) && found_succeeded found
shows_success env release _ = false

abbrev tells_incomplete : Call → Bool
tells_incomplete (Call.error Prompt.delete_incomplete_job text) = true
tells_incomplete _ = false

-- The user was told that the Job is incomplete.
abbrev pub Refused : Trace → Type 0
Refused t = any tells_incomplete t ≡ true

module _ (env : Env) where
  abbrev Succeeded : Trace → Type 0
  Succeeded t = (release : String) × (any (shows_success env release) t ≡ true)

  -- Nothing was deleted before the Job was seen to have succeeded.
  abbrev pub Patient : Trace → Type 0
  Patient [] = Unit {0}
  Patient (Call.delete kind name reply ∷ t) = Succeeded t × Patient t
  Patient (call ∷ t) = Patient t

  -- Whatever is called after the success, this stays so.
  abbrev Free : Trace → Type 0
  Free t = Succeeded t × Patient t

  Succeeded-Lasting : Lasting seconds Succeeded
  Succeeded-Lasting c t (release, h) = (
    release,
    elim (Bool-cases (shows_success env release c)) [ inl e ↦ rw e refl | inr e ↦ rw e h ],
  )

  Free-Patient : (c : Call) (t : Trace) → Free t → Patient (c ∷ t)
  Free-Patient (Call.delete kind name reply) t h = h
  Free-Patient _ t h = h.1

  Free-Lasting : Lasting seconds Free
  Free-Lasting c t h = (Succeeded-Lasting c t h.0, Free-Patient c t h)

  Patient-other : (t : Trace) (c : Call) → is_other c ≡ true → Patient t → Patient (c ∷ t)
  Patient-other t (Call.delete _ _ _) k h = absurd (cc k)
  Patient-other t _ k h = h

  -- What the answer says, if there is one.
  abbrev Answered : Bool → Trace → Type 0
  Answered b t = Patient t × (b ≡ true → Succeeded t)

  Looked : String → Option Found → Trace → Type 0
  Looked release found t = Patient t × (found_succeeded found ≡ true → Succeeded t)

  completed-Answered :
      (ns : String) → Hoare env Patient (is_upgrade_job_completed ns) Answered Patient
  unfolding is_upgrade_job_completed Resources.get_opt Looked
  completed-Answered ns =
      Hoare-bind _ _ (Others.Stays-new env Patient Patient (λ t h. h) Patient-other ns) λ release.
        Hoare-reads-bind _ _ (
          Hoare-bind {Q = Looked release} _ _
            (Hoare-request _ _ _
              (λ t found h.
                (h, λ e. (release, rw (eq_refl (name_of env release Kind.job), e) refl)))
              (λ t s h. h))
            λ found.
              Hoare-bind
                {Q = λ job t. Patient t × (status_succeeded job.status ≡ true → Succeeded t)} _ _
                (Hoare-ok_or found _ (λ t job e h. (h.0, λ s. h.1 (ap found_succeeded e ∙ s)))
                  (λ t h. h.0))
                λ job.
                  Hoare-bind
                    {Q = λ status t.
                      Patient t × (succeeded_once status.succeeded ≡ true → Succeeded t)}
                    _ _
                    (Hoare-ok_or job.status _
                      (λ t status e h. (h.0, λ s. h.1 (ap status_succeeded e ∙ s))) (λ t h. h.0))
                    λ status. Hoare-pure _ (λ t h. h))

  -- Telling the user changes nothing.
  tell-Answered :
      (b c : Bool)
      → Hoare env
          (Answered b)
          (if c then error Prompt.delete_incomplete_job "" else pure tt)
          (λ _. Answered b)
          Patient
  unfolding note pure
  tell-Answered b false = record { at = λ t h. h }
  tell-Answered b true = record {
    at =
        λ t h. (h.0, λ e. Succeeded-Lasting (Call.error Prompt.delete_incomplete_job "") t (h.1 e));
  }

  finish-Patient :
      (ns : String) (b : Bool)
      → Hoare env
          (Answered b)
          (if b || false then delete_upgrade_resources ns else pure tt)
          (λ _. Patient)
          Patient
  finish-Patient ns false = Hoare-pure tt (λ t h. h.0)
  finish-Patient ns true = record {
    at = λ t h.
        let (r, t') = delete_upgrade_resources ns env t in
        Post-weaken r t' (λ _ t f. f.1) (λ t f. f.1)
          ((Hoare-Ends seconds 0 _ Free Free-Lasting (delete-Prompts ns)).at t (h.1 refl, h.0));
  }

  unforced-Patient : (ns : String) → Hoare env Patient (delete false ns) (λ _. Patient) Patient
  unfolding delete
  unforced-Patient ns =
      Hoare-bind _ _ (completed-Answered ns)
        λ b. Hoare-bind _ _ (tell-Answered b (not b && true)) λ _. finish-Patient ns b

  abbrev Asked : Bool → Bool → Trace → Type 0
  Asked force b t = Orderly env t × ((not b && not force) ≡ true → Refused t)

  tell-Asked :
      (force b c : Bool)
      → (not b && not force) ≡ c
      → Hoare env
          (Orderly env)
          (if c then error Prompt.delete_incomplete_job "" else pure tt)
          (λ _. Asked force b)
          (Orderly env)
  unfolding note pure
  tell-Asked force b false e = record { at = λ t h. (h, λ e'. absurd cc) }
  tell-Asked force b true e = record { at = λ t h. ((tt, h), λ _. refl) }

  -- All objects were last seen gone, or the user was told why not.
  abbrev Released : Bool → Trace → Type 0
  Released force t = AllKindsSeen env false t ⊎ ((force ≡ false) × Refused t)

  finish-Done :
      (ns : String) (force b : Bool)
      → Hoare env
          (Asked force b)
          (if b || force then delete_upgrade_resources ns else pure tt)
          (λ _. Released force)
          (Orderly env)
  finish-Done ns false false = Hoare-pure tt (λ t h. inr (refl, h.1 refl))
  finish-Done ns force true = Hoare-weaken (λ t h. h.0) (delete-Orderly env ns) (λ _ t q. inl q.1)
  finish-Done ns true false = Hoare-weaken (λ t h. h.0) (delete-Orderly env ns) (λ _ t q. inl q.1)

  delete-Done :
      (force : Bool) (ns : String)
      → Hoare env (Orderly env) (delete force ns) (λ _. Released force) (Orderly env)
  unfolding delete is_upgrade_job_completed Resources.get_opt
  delete-Done force ns =
      Hoare-bind _ _
        (Hoare-bind _ _
          (Others.Stays-new env (Orderly env) (Orderly env) (λ t h. h) (Orderly-other env) ns)
          λ release. Hoare-reads-bind _ _ (
            Hoare-bind _ _ (Hoare-request _ _ _ (λ t found h. (tt, h)) (λ t s h. (tt, h))) λ found.
              Hoare-bind _ _ (Hoare-ok_or found _ (λ t job e h. h) (λ t h. h)) λ job.
                Hoare-bind _ _ (Hoare-ok_or job.status _ (λ t status e h. h) (λ t h. h))
                  λ status. Hoare-pure _ (λ t h. h)))
        λ b.
          Hoare-bind _ _ (tell-Asked force b (not b && not force) refl) λ _. finish-Done ns force b

-- Without `--force`, nothing is deleted before the release's Job was seen with one success in its
-- status, whatever the cluster answers.
pub delete-Patient : (ns : String) (env : Env) → Patient env (delete false ns env []).1
delete-Patient ns env =
    let (r, t) = delete false ns env [] in
    Post-always r t (λ _ t h. h) ((unforced-Patient env ns).at [] tt)

-- When the deletion of an upgrade returns without an error, all five objects of a release were last
-- seen gone; or it was not forced, and the user was told that the Job is incomplete.
pub delete-Gone :
    (force : Bool) (ns : String) (env : Env)
    → (delete force ns env []).0 ≡ done tt
    → AllKindsSeen env false (delete force ns env []).1
      ⊎ ((force ≡ false) × Refused (delete force ns env []).1)
delete-Gone force ns env e =
    let (r, t) = delete force ns env [] in
    Post-done (λ _. Released env force) (Orderly env) r t tt e ((delete-Done env force ns).at [] tt)
