-- ===== src/Upgrade/Job.antt =====
-- The effect of the upgrade job's async functions, which also sleep and poll.
pub mod Hoare
pub mod Keeps
use mayastor_extensions.Prelude.{ℕ, zero, suc, Bool, ◌∷◌, if◌then◌else◌}
use mayastor_extensions.Effect
use mayastor_extensions.Effect.{Program}
use mayastor_extensions.Upgrade.Error.{Error}
use mayastor_extensions.Upgrade.Env.{Env, Call, sleep}
pub use Effect.{done, failed, pending}
unfoldable pub use Effect.{
  pure, fail, stuck, answer, request, ok_or, lift, reads, ensure, continue, ◌>>=◌, ◌>>◌, for_each,
}

abbrev pub Outcome : Type 0 → Type 0
Outcome A = Effect.Outcome Error A

abbrev pub M : Type 0 → Type 0
M A = Program Env Call Error A

unfoldable pub with_rounds : {A : Type 0} → (ℕ → M A) → M A
with_rounds f env t = f env.rounds env t

-- `tokio::time::sleep`
unfoldable pub pause : ℕ → M (Unit {0})
pause seconds env t = (done tt, sleep seconds ∷ t)

-- `while !test().await? { sleep(seconds).await; }`, for so many tests
unfoldable pub sleep_until : ℕ → ℕ → M Bool → M (Unit {0})
sleep_until zero seconds test = stuck
sleep_until (suc n) seconds test = do
  yes? ← test
  if yes? then pure tt else (do pause seconds; sleep_until n seconds test)
