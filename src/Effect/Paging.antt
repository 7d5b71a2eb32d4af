-- ===== src/Effect/Paging.antt =====
-- The loop of the paginated requests (`list_pods` and its like, `list_all_volumes`): pages are read
-- until one names no next token. `Pages` is what a server hands out.
use mathlib.Core.List.{append_assoc}
use mayastor_extensions.Prelude.{
  ℕ, zero, suc, ◌≤◌, ◌≡◌, ap, ◌∙◌, Option, none, some, List, ◌++◌, arith,
}
use mayastor_extensions.Effect.{done, Program, pure, stuck, ◌>>=◌}
use mayastor_extensions.Effect.Hoare.{Hoare, Hoare-bind, Hoare-pure, Hoare-stuck}

module _ {Env Call Error A T : Type 0} where
  -- `match token { Some(token) => ..., None => break }`
  unfoldable resume :
      (Option T → List A → Program Env Call Error (List A))
      → List A
      → Option T
      → Program Env Call Error (List A)
  unfolding pure
  resume loop acc none = pure acc
  resume loop acc (some token) = loop (some token) acc

  -- So many pages at most; `acc` is what the pages before held.
  unfoldable pub paginate :
      ℕ
      → (Option T → Program Env Call Error (List A × Option T))
      → Option T
      → List A
      → Program Env Call Error (List A)
  unfolding stuck resume
  paginate zero fetch token acc = stuck
  paginate (suc n) fetch token acc =
      fetch token >>= λ page. resume (paginate n fetch) (acc ++ page.0) page.1

  -- A server that answers from `token` on with so many pages, holding these items in all.
  pub data Pages (env : Env) (fetch : Option T → Program Env Call Error (List A × Option T))
      : ℕ → Option T → List Call → List A → List Call → Type 0 where
    last_page :
        {token : Option T} {t t' : List Call} {items : List A}
        → fetch token env t ≡ (done (items, none), t')
        → Pages env fetch 1 token t items t'
    next_page :
        {n : ℕ} {token : Option T} {k : T} {t t₁ t' : List Call} {items rest : List A}
        → fetch token env t ≡ (done (items, some k), t₁)
        → Pages env fetch n (some k) t₁ rest t'
        → Pages env fetch (suc n) token t (items ++ rest) t'

  -- Every item of every page is returned, in order, if the rounds suffice.
  pub paginate_all :
      (env : Env) (fetch : Option T → Program Env Call Error (List A × Option T)) (fuel : ℕ)
      (acc : List A) {n : ℕ} {token : Option T} {t t' : List Call} {items : List A}
      → Pages env fetch n token t items t'
      → n ≤ fuel
      → paginate fuel fetch token acc env t ≡ (done (acc ++ items), t')
  unfolding paginate ◌>>=◌
  paginate_all env fetch zero acc (last_page e) le = absurd (omega arith)
  paginate_all env fetch zero acc (next_page e p) le = absurd (omega arith)
  paginate_all env fetch (suc fuel) acc (last_page e) le = rw e
  paginate_all env fetch (suc fuel) acc {t' = t'} (next_page {items = items} {rest = rest} e p) le =
      rw e (
        paginate_all env fetch fuel (acc ++ items) p (omega arith)
        ∙ ap (λ l. (done l, t')) (append_assoc acc items rest))

module _ {Env Call Error : Type 0} {env : Env} {P E : List Call → Type 0} {A T : Type 0} where
  -- What each request keeps, reading all the pages keeps.
  pub Hoare-paginate :
      (n : ℕ) (fetch : Option T → Program Env Call Error (List A × Option T)) (token : Option T)
      (acc : List A)
      → ((token : Option T) → Hoare env P (fetch token) (λ _. P) E)
      → ((t : List Call) → P t → E t)
      → Hoare env P (paginate n fetch token acc) (λ _. P) E
  unfolding paginate
  Hoare-paginate zero fetch token acc h safe = Hoare-stuck safe
  Hoare-paginate (suc n) fetch token acc h safe =
      Hoare-bind (fetch token) _ (h token)
        λ page. on page.1 (acc ++ page.0) (λ token acc. Hoare-paginate n fetch token acc h safe)
    where
      on :
          (next : Option T) (acc : List A)
          → ((token : Option T) (acc : List A)
              → Hoare env P (paginate n fetch token acc) (λ _. P) E)
          → Hoare env P (resume (paginate n fetch) acc next) (λ _. P) E
      on none acc loop = Hoare-pure acc (λ t p. p)
      on (some k) acc loop = loop (some k) acc
