-- ===== src/Upgrade/Kube/Listings.antt =====
-- `list_pods` reads all pages.
use mayastor_extensions.Prelude.{
  ℕ, suc, ◌≤◌, ◌≡◌, refl, ap, String, Option, none, some, List, [], ◌∷◌, ◌++◌,
}
use mayastor_extensions.Upgrade.Models.{Pod}
use mayastor_extensions.Upgrade.Env.{
  Env, ListParams, ObjectList, Reply, Trace, good, k8s_client, pods_listed,
}
use mayastor_extensions.Upgrade.Env as Job
use mayastor_extensions.Upgrade.Job.{done, continue, with_rounds, ◌>>=◌}
use mayastor_extensions.Effect.Paging.{Pages, last_page, next_page, paginate_all}
use mayastor_extensions.Upgrade.Kube.{client, list_pods, note_pods, page_of, pods_page}

module _ (env : Env) (namespace : String) (labels fields : Option String) where
  -- The request for the page that follows on a continue token: 500 Pods at most.
  abbrev pub page_request : Option String → ListParams
  page_request token = record {
    namespace = namespace;
    label_selector = labels;
    field_selector = fields;
    limit = 500;
    continue_token = token;
  }

  -- The calls of one page: a client, and the listing with its reply.
  abbrev pub page_calls : Option String → ObjectList Pod → Trace → Trace
  page_calls token page t =
      Job.list_pods (page_request token) (good page) ∷ k8s_client (good tt) ∷ t

  -- The API server answers the request for that page like this.
  abbrev pub Answers : Option String → Trace → ObjectList Pod → Type 0
  Answers token t page =
      (env.k8s_client t ≡ good tt)
      × (env.list_pods (k8s_client (good tt) ∷ t) (page_request token) ≡ good page)

  -- The API server hands out these Pods on so many pages from the token on: every page but the last
  -- names a token, and the next page is what it answers to a request with that token.
  pub data PodPages : ℕ → Option String → Trace → List Pod → Trace → Type 0 where
    last :
        {token : Option String} {t : Trace} (items : List Pod)
        → Answers token t (record { items = items; continue_ = none })
        → PodPages 1 token t items (page_calls token (record { items = items; continue_ = none }) t)
    next :
        {n : ℕ} {token : Option String} {t t' : Trace} {rest : List Pod} (items : List Pod)
        (k : String)
        → Answers token t (record { items = items; continue_ = some k })
        → PodPages n
            (some k)
            (page_calls token (record { items = items; continue_ = some k }) t)
            rest
            t'
        → PodPages (suc n) token t (items ++ rest) t'

  page-answered :
      (token : Option String) (t : Trace) (page : ObjectList Pod)
      → Answers token t page
      → pods_page namespace labels fields token env t
        ≡ (done (page.items, page.continue_), page_calls token page t)
  unfolding pods_page page_of client ◌>>=◌
  page-answered token t page (c, l) = rw (c, l) refl

  PodPages-read :
      {n : ℕ} {token : Option String} {t t' : Trace} {pods : List Pod}
      → PodPages n token t pods t'
      → Pages env (pods_page namespace labels fields) n token t pods t'
  PodPages-read {token = token} {t = t} (last items a) = last_page (page-answered token t _ a)
  PodPages-read {token = token} {t = t} (next items k a p) =
      next_page (page-answered token t _ a) (PodPages-read p)

-- If the API server hands out the Pods on so many pages, following the continue tokens, and that many
-- rounds are followed, then `list_pods` returns the Pods of all pages, in order, with exactly the
-- requests for these pages, and asks for no other page.
pub list_pods-all :
    (env : Env) (namespace : String) (labels fields : Option String) {n : ℕ} {t t' : Trace}
    {pods : List Pod}
    → PodPages env namespace labels fields n none t pods t'
    → n ≤ env.rounds
    → list_pods namespace labels fields env t ≡ (done pods, pods_listed labels fields pods ∷ t')
unfolding list_pods note_pods with_rounds ◌>>=◌
list_pods-all env namespace labels fields pages enough =
    ap (λ r. continue r.0 (note_pods labels fields) env r.1)
      (paginate_all env (pods_page namespace labels fields) env.rounds []
        (PodPages-read env namespace labels fields pages) enough)
