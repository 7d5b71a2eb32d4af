-- ===== src/Effect/Hoare.antt =====
-- Rules about the calls that a function makes. `Hoare env P m Q E`: from a record of calls that
-- satisfies `P`, `m` leaves one that satisfies `Q` with its value if it returns, and `E` if it fails
-- or polls on.
use mayastor_extensions.Prelude.{
  String, Bool, true, false, ◌≡◌, refl, subst, Option, none, some, List, [], ◌∷◌, if◌then◌else◌,
}
use mayastor_extensions.Effect.{
  Reply, good, bad, Outcome, done, failed, pending, Program, pure, fail, stuck, answer, request,
  ok_or, lift, reads, continue, ◌>>=◌, ensure, for_each,
}

module _ {Call Error : Type 0} where
  abbrev pub Post :
      {A : Type 0}
      → (A → List Call → Type 0)
      → (List Call → Type 0)
      → Outcome Error A
      → List Call
      → Type 0
  Post Q E (done a) t = Q a t
  Post Q E (failed e) t = E t
  Post Q E pending t = E t

  Post-answer :
      {A : Type 0} (Q : A → List Call → Type 0) (E : List Call → Type 0) (e : String → Error)
      (r : Reply A) (t : List Call)
      → ((a : A) → r ≡ good a → Q a t)
      → ((s : String) → r ≡ bad s → E t)
      → let (o, t') = answer e r t in Post Q E o t'
  Post-answer Q E e (good a) t ok err = ok a refl
  Post-answer Q E e (bad s) t ok err = err s refl

  Post-answer_log :
      {A : Type 0} (Q : A → List Call → Type 0) (E : List Call → Type 0) (e : String → Error)
      (log : Reply A → Call) (r : Reply A) (t : List Call)
      → ((a : A) → Q a (log (good a) ∷ t))
      → ((s : String) → E (log (bad s) ∷ t))
      → let (o, t') = answer e r (log r ∷ t) in Post Q E o t'
  Post-answer_log Q E e log (good a) t ok err = ok a
  Post-answer_log Q E e log (bad s) t ok err = err s

  -- What holds after every outcome, and after a return.
  pub Post-always :
      {A : Type 0} {Q : A → List Call → Type 0} {E : List Call → Type 0} (r : Outcome Error A)
      (t : List Call)
      → ((a : A) (t : List Call) → Q a t → E t)
      → Post Q E r t
      → E t
  Post-always (done a) t q h = q a t h
  Post-always (failed e) t q h = h
  Post-always pending t q h = h

  pub Post-done :
      {A : Type 0} (Q : A → List Call → Type 0) (E : List Call → Type 0) (r : Outcome Error A)
      (t : List Call) (a : A)
      → r ≡ done a
      → Post Q E r t
      → Q a t
  Post-done Q E r t a e h = subst (λ r. Post Q E r t) e h

  pub Post-weaken :
      {A : Type 0} {Q R : A → List Call → Type 0} {E F : List Call → Type 0} (r : Outcome Error A)
      (t : List Call)
      → ((a : A) (t : List Call) → Q a t → R a t)
      → ((t : List Call) → E t → F t)
      → Post Q E r t
      → Post R F r t
  Post-weaken (done a) t q e h = q a t h
  Post-weaken (failed x) t q e h = e t h
  Post-weaken pending t q e h = e t h

module _ {Env Call Error : Type 0} where
  pub record Hoare {A : Type 0} (env : Env) (P : List Call → Type 0) (m : Program Env Call Error A)
      (Q : A → List Call → Type 0) (E : List Call → Type 0) : Type 0 where
    pub at : (t : List Call) → P t → let (r, t') = m env t in Post Q E r t'

  Post-bind :
      {A B : Type 0} (env : Env) {Q : A → List Call → Type 0} {R : B → List Call → Type 0}
      {E : List Call → Type 0} (f : A → Program Env Call Error B) (r : Outcome Error A)
      (t : List Call)
      → ((a : A) → Hoare env (Q a) (f a) R E)
      → Post Q E r t
      → let (o, t') = continue r f env t in Post R E o t'
  Post-bind env f (done a) t hf h = (hf a).at t h
  Post-bind env f (failed e) t hf h = h
  Post-bind env f pending t hf h = h

  module _ {env : Env} {E : List Call → Type 0} {A : Type 0} {P : List Call → Type 0}
      {Q : A → List Call → Type 0} where
    pub Hoare-pure : (a : A) → ((t : List Call) → P t → Q a t) → Hoare env P (pure a) Q E
    unfolding pure
    Hoare-pure a h = record { at = h }

    pub Hoare-fail : (e : Error) → ((t : List Call) → P t → E t) → Hoare env P (fail e) Q E
    unfolding fail
    Hoare-fail e safe = record { at = safe }

    pub Hoare-stuck : ((t : List Call) → P t → E t) → Hoare env P stuck Q E
    unfolding stuck
    Hoare-stuck safe = record { at = safe }

    -- What holds after either reply.
    pub Hoare-request :
        (ask : Env → List Call → Reply A) (log : Reply A → Call) (e : String → Error)
        → ((t : List Call) (a : A) → P t → Q a (log (good a) ∷ t))
        → ((t : List Call) (s : String) → P t → E (log (bad s) ∷ t))
        → Hoare env P (request ask log e) Q E
    unfolding request
    Hoare-request ask log e ok err = record {
      at = λ t h. Post-answer_log Q E e log (ask env t) t (λ a. ok t a h) (λ s. err t s h);
    }

    pub Hoare-lift :
        (r : Env → Reply A) (e : String → Error)
        → ((t : List Call) (a : A) → r env ≡ good a → P t → Q a t)
        → ((t : List Call) → P t → E t)
        → Hoare env P (lift r e) Q E
    unfolding lift
    Hoare-lift r e ok err = record {
      at = λ t h. Post-answer Q E e (r env) t (λ a p. ok t a p h) (λ s p. err t h);
    }

    pub Hoare-ok_or :
        (o : Option A) (e : Error)
        → ((t : List Call) (a : A) → o ≡ some a → P t → Q a t)
        → ((t : List Call) → P t → E t)
        → Hoare env P (ok_or o e) Q E
    unfolding ok_or
    Hoare-ok_or none e ok err = record { at = err }
    Hoare-ok_or (some a) e ok err = record { at = λ t h. ok t a refl h }

    pub Hoare-reads :
        (f : Env → A) → ((t : List Call) → P t → Q (f env) t) → Hoare env P (reads f) Q E
    unfolding reads
    Hoare-reads f h = record { at = h }

    pub Hoare-if :
        (b : Bool) (m n : Program Env Call Error A)
        → (b ≡ true → Hoare env P m Q E)
        → (b ≡ false → Hoare env P n Q E)
        → Hoare env P (if b then m else n) Q E
    Hoare-if true m n hm hn = hm refl
    Hoare-if false m n hm hn = hn refl

    -- A stronger precondition and weaker postconditions.
    pub Hoare-weaken :
        {P' : List Call → Type 0} {Q' : A → List Call → Type 0} {m : Program Env Call Error A}
        → ((t : List Call) → P t → P' t)
        → Hoare env P' m Q' E
        → ((a : A) (t : List Call) → Q' a t → Q a t)
        → Hoare env P m Q E
    Hoare-weaken {m = m} p h q = record {
      at = λ t pt. let (r, t') = m env t in Post-weaken r t' q (λ t e. e) (h.at t (p t pt));
    }

  module _ {env : Env} {E : List Call → Type 0} {A B : Type 0} {P : List Call → Type 0}
      {R : B → List Call → Type 0} where
    pub Hoare-bind :
        {Q : A → List Call → Type 0} (m : Program Env Call Error A)
        (f : A → Program Env Call Error B)
        → Hoare env P m Q E
        → ((a : A) → Hoare env (Q a) (f a) R E)
        → Hoare env P (m >>= f) R E
    unfolding ◌>>=◌
    Hoare-bind m f hm hf = record {
      at = λ t h. let (r, t') = m env t in Post-bind env f r t' hf (hm.at t h);
    }

    -- What is read of the environment is known.
    pub Hoare-reads-bind :
        (g : Env → A) (f : A → Program Env Call Error B)
        → Hoare env P (f (g env)) R E
        → Hoare env P (reads g >>= f) R E
    unfolding ◌>>=◌
    Hoare-reads-bind g f h = record { at = h.at }

  module _ {env : Env} {E P : List Call → Type 0} where
    pub Hoare-ensure :
        {Q : List Call → Type 0} (b : Bool) (e : Error)
        → (b ≡ true → (t : List Call) → P t → Q t)
        → ((t : List Call) → P t → E t)
        → Hoare env P (ensure b e) (λ _. Q) E
    unfolding ensure pure fail
    Hoare-ensure true e ok err = record { at = ok refl }
    Hoare-ensure false e ok err = record { at = err }

    -- A loop over a list keeps what each round keeps.
    pub Hoare-for_each {ℓ} :
        {A : Type ℓ} (xs : List A) (body : A → Program Env Call Error (Unit {0}))
        → ((x : A) → Hoare env P (body x) (λ _. P) E)
        → Hoare env P (for_each xs body) (λ _. P) E
    unfolding for_each
    Hoare-for_each [] body h = Hoare-pure tt (λ t p. p)
    Hoare-for_each (x ∷ xs) body h = Hoare-bind (body x) _ (h x) (λ _. Hoare-for_each xs body h)

  -- A fact that is not about the calls stays.
  pub Hoare-frame :
      {env : Env} {A : Type 0} {P E : List Call → Type 0} {Q : A → List Call → Type 0}
      {m : Program Env Call Error A} {V : Type 0}
      → Hoare env P m Q E
      → Hoare env (λ t. V × P t) m (λ a t. V × Q a t) E
  Hoare-frame {env} {m = m} h = record {
    at = λ t p.
        let (r, t') = m env t in Post-weaken r t' (λ a t q. (p.0, q)) (λ t e. e) (h.at t p.1);
  }
