-- ===== src/Plugin/Task.antt =====
-- The effect of the plugin's async functions, and the calls that many of them make.
use mayastor_extensions.Prelude.{ℕ, String, ◌∷◌}
use mayastor_extensions.Effect
use mayastor_extensions.Effect.{Program}
use mayastor_extensions.Plugin.Error.{Error}
use mayastor_extensions.Plugin.Env.{Env, Call, Prompt}
pub use Effect.{done, failed, pending}
unfoldable pub use Effect.{
  pure, fail, stuck, answer, request, ok_or, lift, reads, ensure, continue, ◌>>=◌, ◌>>◌, for_each,
}

abbrev pub Outcome : Type 0 → Type 0
Outcome A = Effect.Outcome Error A

abbrev pub M : Type 0 → Type 0
M A = Program Env Call Error A

-- A call that cannot fail.
unfoldable pub note : Call → M (Unit {0})
note call env t = (done tt, call ∷ t)

-- `console_logger::info`, `console_logger::error`, `tokio::time::sleep`
abbrev pub info : Prompt → String → M (Unit {0})
info prompt text = note (Call.info prompt text)

abbrev pub error : Prompt → String → M (Unit {0})
error prompt text = note (Call.error prompt text)

abbrev pub pause : ℕ → M (Unit {0})
pause seconds = note (Call.sleep seconds)

-- `Client::try_default()`
unfoldable pub client : (String → Error) → M (Unit {0})
client context = request (λ env t. env.k8s_client t) Call.k8s_client context
