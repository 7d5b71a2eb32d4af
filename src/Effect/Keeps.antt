-- ===== src/Effect/Keeps.antt =====
-- What only some kinds of calls could break: `I` holds at the start, at every return, and `E`, which
-- follows from it, when the function fails. `step` says which calls keep it.
use mayastor_extensions.Prelude.{String, Bool, true, ◌≡◌, List, ◌∷◌}
use mayastor_extensions.Effect.{Reply, good, bad, Program, request}
use mayastor_extensions.Effect.Hoare.{Hoare, Hoare-request}

module _ {Env Call : Type 0} (env : Env) (K : Call → Bool) (I E : List Call → Type 0)
    (safe : (t : List Call) → I t → E t)
    (step : (t : List Call) (c : Call) → K c ≡ true → I t → I (c ∷ t)) where
  abbrev pub Keeps : {Error A : Type 0} → Program Env Call Error A → Type 0
  Keeps m = Hoare env I m (λ _. I) E

  pub Keeps-request :
      {Error A : Type 0} (ask : Env → List Call → Reply A) (log : Reply A → Call)
      (e : String → Error)
      → ((r : Reply A) → K (log r) ≡ true)
      → Keeps (request ask log e)
  Keeps-request ask log e k =
      Hoare-request ask log e (λ t a h. step t _ (k (good a)) h)
        (λ t s h. safe _ (step t _ (k (bad s)) h))
