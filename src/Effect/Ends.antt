-- ===== src/Effect/Ends.antt =====
-- Functions that end whatever they are answered: they do not poll on, they wait for a bounded time,
-- and they only add calls to the record.
use mayastor_extensions.Prelude.{
  ℕ, ◌+◌, ◌≤◌, String, Bool, true, false, Option, none, some, List, [], ◌∷◌, arith, if◌then◌else◌,
}
use mayastor_extensions.Effect.Hoare.{Hoare, Post}
use mayastor_extensions.Effect.{
  Reply, good, bad, Outcome, done, failed, pending, Program, pure, fail, request, ok_or, lift,
  reads, answer, continue, ◌>>=◌,
}

-- Not `pending`.
abbrev pub Returns : {Error A : Type 0} → Outcome Error A → Type 0
Returns (done a) = Unit
Returns (failed e) = Unit
Returns pending = ⊥

module _ {Call : Type 0} (cost : Call → ℕ) where
  -- What the calls cost in all.
  abbrev pub total : List Call → ℕ
  total [] = 0
  total (c ∷ t) = cost c + total t

  -- What is so after more calls, if it is so before.
  abbrev pub Lasting : (List Call → Type 0) → Type 0
  Lasting I = (c : Call) (t : List Call) → I t → I (c ∷ t)

  -- The outcome of a function and its calls, of which it started from `t`.
  pub record EndsAt {Error A : Type 0} (n : ℕ) (t : List Call) (r : Outcome Error A × List Call)
      : Type 1 where
    pub returns : Returns r.0
    pub bounded : total r.1 ≤ n + total t
    pub grows : (I : List Call → Type 0) → Lasting I → I t → I r.1

  EndsAt-answer :
      {Error A : Type 0} (e : String → Error) (r : Reply A) (n : ℕ) (t t' : List Call)
      → total t' ≤ n + total t
      → ((I : List Call → Type 0) → Lasting I → I t → I t')
      → EndsAt n t (answer e r t')
  EndsAt-answer e (good a) n t t' h g = record { returns = tt; bounded = h; grows = g }
  EndsAt-answer e (bad s) n t t' h g = record { returns = tt; bounded = h; grows = g }

  Post-lasting :
      {Error A : Type 0} (I E : List Call → Type 0) (Q : A → List Call → Type 0)
      (r : Outcome Error A) (t : List Call)
      → I t
      → Post Q E r t
      → Post (λ a t. I t × Q a t) E r t
  Post-lasting I E Q (done a) t i h = (i, h)
  Post-lasting I E Q (failed e) t i h = h
  Post-lasting I E Q pending t i h = h

  Post-all :
      {Error A : Type 0} (I : List Call → Type 0) (r : Outcome Error A) (t : List Call)
      → I t
      → Post (λ _. I) I r t
  Post-all I (done a) t i = i
  Post-all I (failed e) t i = i
  Post-all I pending t i = i

  module _ {Env Error : Type 0} where
    pub record Ends {A : Type 0} (n : ℕ) (m : Program Env Call Error A) : Type 1 where
      pub at : (env : Env) (t : List Call) → EndsAt n t (m env t)

    pub Ends-pure : {A : Type 0} (n : ℕ) (a : A) → Ends n (pure a)
    unfolding pure
    Ends-pure n a = record {
      at = λ env t. record { returns = tt; bounded = omega arith; grows = λ I l i. i };
    }

    pub Ends-fail : {A : Type 0} (n : ℕ) (e : Error) → Ends {A = A} n (fail e)
    unfolding fail
    Ends-fail n e = record {
      at = λ env t. record { returns = tt; bounded = omega arith; grows = λ I l i. i };
    }

    pub Ends-reads : {A : Type 0} (n : ℕ) (f : Env → A) → Ends n (reads f)
    unfolding reads
    Ends-reads n f = record {
      at = λ env t. record { returns = tt; bounded = omega arith; grows = λ I l i. i };
    }

    pub Ends-ok_or : {A : Type 0} (n : ℕ) (o : Option A) (e : Error) → Ends n (ok_or o e)
    unfolding ok_or
    Ends-ok_or n none e = Ends-fail n e
    Ends-ok_or n (some a) e = Ends-pure n a

    pub Ends-lift :
        {A : Type 0} (n : ℕ) (r : Env → Reply A) (e : String → Error) → Ends n (lift r e)
    unfolding lift
    Ends-lift n r e = record {
      at = λ env t. EndsAt-answer e (r env) n t t (omega arith) (λ I l i. i);
    }

    pub Ends-request :
        {A : Type 0} (ask : Env → List Call → Reply A) (log : Reply A → Call) (e : String → Error)
        (n : ℕ)
        → ((r : Reply A) → cost (log r) ≤ n)
        → Ends n (request ask log e)
    unfolding request
    Ends-request ask log e n h = record {
      at = λ env t.
          let r = ask env t in
          EndsAt-answer e r n t (log r ∷ t) (omega (arith, h r)) (λ I l i. l (log r) t i);
    }

    Ends-continue :
        {A B : Type 0} (n k : ℕ) (t : List Call) (f : A → Program Env Call Error B) (env : Env)
        (r : Outcome Error A) (t' : List Call)
        → EndsAt n t (r, t')
        → ((a : A) → Ends k (f a))
        → EndsAt (n + k) t (continue r f env t')
    Ends-continue n k t f env (done a) t' h hf =
        let h' = (hf a).at env t' in
        record {
          returns = h'.returns;
          bounded = omega (arith, h.bounded, h'.bounded);
          grows = λ I l i. h'.grows I l (h.grows I l i);
        }
    Ends-continue n k t f env (failed e) t' h hf = record {
      returns = tt;
      bounded = omega (arith, h.bounded);
      grows = h.grows;
    }
    Ends-continue n k t f env pending t' h hf = absurd h.returns

    pub Ends-bind :
        {A B : Type 0} (n k : ℕ) (m : Program Env Call Error A) (f : A → Program Env Call Error B)
        → Ends n m
        → ((a : A) → Ends k (f a))
        → Ends (n + k) (m >>= f)
    unfolding ◌>>=◌
    Ends-bind n k m f h hf = record {
      at = λ env t. let (r, t') = m env t in Ends-continue n k t f env r t' (h.at env t) hf;
    }

    pub Ends-if :
        {A : Type 0} (n : ℕ) (b : Bool) (m m' : Program Env Call Error A)
        → Ends n m
        → Ends n m'
        → Ends n (if b then m else m')
    Ends-if n true m m' h h' = h
    Ends-if n false m m' h h' = h'

    pub Ends-weaken :
        {A : Type 0} (n k : ℕ) (m : Program Env Call Error A) → n ≤ k → Ends n m → Ends k m
    Ends-weaken n k m le h = record {
      at = λ env t.
          let e = h.at env t in
          record { returns = e.returns; bounded = omega (arith, le, e.bounded); grows = e.grows };
    }

    -- What lasts is kept besides.
    pub Hoare-lasting :
        {A : Type 0} {env : Env} {P E : List Call → Type 0} {Q : A → List Call → Type 0} (n : ℕ)
        (m : Program Env Call Error A) (I : List Call → Type 0)
        → Lasting I
        → Ends n m
        → Hoare env P m Q E
        → Hoare env (λ t. I t × P t) m (λ a t. I t × Q a t) E
    Hoare-lasting {env = env} {E = E} {Q = Q} n m I l ends h = record {
      at = λ t p.
          let (r, t') = m env t in
          Post-lasting I E Q r t' ((ends.at env t).grows I l p.0) (h.at t p.1);
    }

    pub Hoare-Ends :
        {A : Type 0} {env : Env} (n : ℕ) (m : Program Env Call Error A) (I : List Call → Type 0)
        → Lasting I
        → Ends n m
        → Hoare env I m (λ _. I) I
    Hoare-Ends {env = env} n m I l ends = record {
      at = λ t i. let (r, t') = m env t in Post-all I r t' ((ends.at env t).grows I l i);
    }
