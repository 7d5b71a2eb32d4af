-- ===== src/Upgrade/Job/Hoare.antt =====
-- The rules for sleeping and polling.
use mayastor_extensions.Prelude.{ℕ, zero, suc, Bool, true, false, ◌∷◌, if◌then◌else◌}
use mayastor_extensions.Effect.Hoare
use mayastor_extensions.Upgrade.Env.{Env, Trace, sleep}
use mayastor_extensions.Upgrade.Job.{M, pure, with_rounds, pause, ◌>>◌, sleep_until}
pub use Hoare.{
  Post, Hoare, Post-always, Post-done, Hoare-pure, Hoare-fail, Hoare-stuck, Hoare-request,
  Hoare-lift, Hoare-ok_or, Hoare-reads, Hoare-if, Hoare-weaken, Hoare-bind, Hoare-reads-bind,
  Hoare-ensure, Hoare-for_each, Hoare-frame,
}
use Hoare.{Hoare, Hoare-bind, Hoare-pure, Hoare-stuck}

module _ {env : Env} {E : Trace → Type 0} {A : Type 0} {P : Trace → Type 0}
    {Q : A → Trace → Type 0} where
  pub Hoare-with_rounds :
      (f : ℕ → M A) → ((n : ℕ) → Hoare env P (f n) Q E) → Hoare env P (with_rounds f) Q E
  unfolding with_rounds
  Hoare-with_rounds f h = record { at = λ t p. (h env.rounds).at t p }

module _ {env : Env} {E P : Trace → Type 0} where
  pub Hoare-pause :
      {Q : Trace → Type 0} (n : ℕ)
      → ((t : Trace) → P t → Q (sleep n ∷ t))
      → Hoare env P (pause n) (λ _. Q) E
  unfolding pause
  Hoare-pause n h = record { at = h }

module _ {env : Env} {E P : Trace → Type 0} where
  -- A polling loop returns after a test that said yes.
  pub Hoare-sleep_until :
      {Q : Bool → Trace → Type 0} (n seconds : ℕ) (test : M Bool)
      → Hoare env P test Q E
      → ((t : Trace) → Q false t → P (sleep seconds ∷ t))
      → ((t : Trace) → P t → E t)
      → Hoare env P (sleep_until n seconds test) (λ _. Q true) E
  unfolding sleep_until
  Hoare-sleep_until zero seconds test h again safe = Hoare-stuck safe
  Hoare-sleep_until {Q} (suc n) seconds test h again safe =
      Hoare-bind test _ h (decide (Hoare-sleep_until n seconds test h again safe))
    where
      decide :
          Hoare env P (sleep_until n seconds test) (λ _. Q true) E
          → (b : Bool)
          → Hoare env
              (Q b)
              (if b then pure tt else pause seconds >> sleep_until n seconds test)
              (λ _. Q true)
              E
      decide rest true = Hoare-pure tt (λ t q. q)
      decide rest false = Hoare-bind (pause seconds) _ (Hoare-pause seconds again) (λ _. rest)
