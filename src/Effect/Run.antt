-- ===== src/Effect/Run.antt =====
-- Steps of a run whose answers are known.
use mayastor_extensions.Prelude.{String, ◌≡◌, List, ap}
use mayastor_extensions.Effect.{Reply, good, answer, done, Program, lift, continue, ◌>>=◌}

module _ {Env Call Error A B : Type 0} where
  pub bind_done :
      (m : Program Env Call Error A) (f : A → Program Env Call Error B) (env : Env)
      (t t' : List Call) (a : A)
      → m env t ≡ (done a, t')
      → (m >>= f) env t ≡ f a env t'
  unfolding ◌>>=◌
  bind_done m f env t t' a e = ap (λ r. continue r.0 f env r.1) e

  pub lift_done :
      (r : Env → Reply A) (f : A → Program Env Call Error B) (context : String → Error) (env : Env)
      (t : List Call) (a : A)
      → r env ≡ good a
      → (lift r context >>= f) env t ≡ f a env t
  unfolding lift ◌>>=◌
  lift_done r f context env t a e =
      ap (λ x. continue (answer context x t).0 f env (answer context x t).1) e

  -- Only the value is known.
  pub bind_value :
      (m : Program Env Call Error A) (f : A → Program Env Call Error B) (env : Env) (t : List Call)
      (a : A)
      → (m env t).0 ≡ done a
      → (m >>= f) env t ≡ f a env (m env t).1
  bind_value m f env t a e = bind_done m f env t (m env t).1 a (ap (λ r. (r, (m env t).1)) e)
