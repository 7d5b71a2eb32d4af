-- ===== src/Effect.antt =====
-- The effect of the programs' async functions: they read an environment, extend the record of calls,
-- and return, fail with an error, or are still polling when the rounds are used up.
pub mod Hoare
pub mod Keeps
pub mod Paging
pub mod Ends
pub mod Run
use mayastor_extensions.Prelude.{String, Bool, Option, none, some, List, [], ◌∷◌, if◌then◌else◌}

-- The answer of a call: a value, or the text of the error.
pub data Reply (A : Type 0) : Type 0 where
  good : A → Reply A
  bad : String → Reply A

-- `pending`: a loop polls on, after as many rounds as the environment says.
pub data Outcome (Error A : Type 0) : Type 0 where
  done : A → Outcome Error A
  failed : Error → Outcome Error A
  pending : Outcome Error A

-- The calls so far, the latest first.
abbrev pub Program : Type 0 → Type 0 → Type 0 → Type 0 → Type 0
Program Env Call Error A = Env → List Call → Outcome Error A × List Call

module _ {Call Error A : Type 0} where
  abbrev pub answer : (String → Error) → Reply A → List Call → Outcome Error A × List Call
  answer e (good a) t = (done a, t)
  answer e (bad s) t = (failed (e s), t)

module _ {Env Call Error A : Type 0} where
  unfoldable pub pure : A → Program Env Call Error A
  pure a env t = (done a, t)

  -- `.fail()`, and `?` on an error
  unfoldable pub fail : Error → Program Env Call Error A
  fail e env t = (failed e, t)

  unfoldable pub stuck : Program Env Call Error A
  stuck env t = (pending, t)

  -- A call outside: the reply is recorded, and an error gets its `.context(...)`.
  unfoldable pub request :
      (Env → List Call → Reply A) → (Reply A → Call) → (String → Error) → Program Env Call Error A
  request ask log e env t = let r = ask env t in answer e r (log r ∷ t)

  -- `.ok_or(...)?`
  unfoldable pub ok_or : Option A → Error → Program Env Call Error A
  unfolding pure fail
  ok_or none e = fail e
  ok_or (some a) e = pure a

  -- `Result::context(...)?` on a value that is no call
  unfoldable pub lift : (Env → Reply A) → (String → Error) → Program Env Call Error A
  lift r e env t = answer e (r env) t

  unfoldable pub reads : (Env → A) → Program Env Call Error A
  reads f env t = (done (f env), t)

-- `ensure!(b, e)`
unfoldable pub ensure : {Env Call Error : Type 0} → Bool → Error → Program Env Call Error (Unit {0})
unfolding pure fail
ensure b e = if b then pure tt else fail e

module _ {Env Call Error A B : Type 0} where
  abbrev pub continue :
      Outcome Error A
      → (A → Program Env Call Error B)
      → Env
      → List Call
      → Outcome Error B × List Call
  continue (done a) f env t = f a env t
  continue (failed e) f env t = (failed e, t)
  continue pending f env t = (pending, t)

  infixl 10 ◌>>=◌ ◌>>◌
  -- Unfolding this unfolds the other combinators too.
  unfoldable pub ◌>>=◌ :
      Program Env Call Error A → (A → Program Env Call Error B) → Program Env Call Error B
  unfolding pure fail stuck request ok_or lift reads ensure
  ◌>>=◌ m f env t = let (r, t') = m env t in continue r f env t'

  abbrev pub ◌>>◌ : Program Env Call Error A → Program Env Call Error B → Program Env Call Error B
  m >> n = m >>= λ _. n

-- `for x in xs { body(x).await?; }`
unfoldable pub for_each {ℓ} :
    {Env Call Error : Type 0} {A : Type ℓ}
    → List A
    → (A → Program Env Call Error (Unit {0}))
    → Program Env Call Error (Unit {0})
for_each [] body = pure tt
for_each (x ∷ xs) body = body x >> for_each xs body
