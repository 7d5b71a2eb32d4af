-- ===== src/Upgrade/Job/Keeps.antt =====
-- The sleeps and the polls of the upgrade job among what keeps a property.
use mayastor_extensions.Prelude.{ℕ, Bool, true, ◌≡◌, ◌∷◌}
use mayastor_extensions.Effect.Keeps
use mayastor_extensions.Effect.Keeps.{Keeps}
use mayastor_extensions.Upgrade.Env.{Env, Trace, Call, sleep}
use mayastor_extensions.Upgrade.Job.{M, pause, sleep_until}
use mayastor_extensions.Upgrade.Job.Hoare.{Hoare-pause, Hoare-sleep_until}
pub use Keeps.{Keeps, Keeps-request}

module _ (env : Env) (K : Call → Bool) (I E : Trace → Type 0) (safe : (t : Trace) → I t → E t)
    (step : (t : Trace) (c : Call) → K c ≡ true → I t → I (c ∷ t)) where
  pub Keeps-pause : (n : ℕ) → K (sleep n) ≡ true → Keeps env K I E safe step (pause n)
  Keeps-pause n k = Hoare-pause n (λ t h. step t _ k h)

  pub Keeps-sleep_until :
      (n seconds : ℕ) (test : M Bool)
      → Keeps env K I E safe step test
      → K (sleep seconds) ≡ true
      → Keeps env K I E safe step (sleep_until n seconds test)
  Keeps-sleep_until n seconds test h k =
      Hoare-sleep_until n seconds test h (λ t p. step t _ k p) safe
