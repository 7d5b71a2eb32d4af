-- ===== src/Plugin/Preflight/Listed.antt =====
-- What the REST API lists to the checks of volumes, page by page.
use mayastor_extensions.Prelude.{ℕ, suc, ℤ, ◌≡◌, refl, Option, none, some, List, ◌∷◌, ◌++◌}
use mayastor_extensions.Effect.Paging.{Pages, last_page, next_page}
use mayastor_extensions.Plugin.Env.{Call, Env, Trace, Volume, Volumes, good}
use mayastor_extensions.Plugin.Preflight.{volumes_page}
use mayastor_extensions.Plugin.Task.{done, ◌>>=◌}

module _ (env : Env) where
  -- The answer to a request for 200 volumes from the token on.
  abbrev pub Answers : Option ℤ → Trace → Volumes → Type 0
  Answers token t page = env.get_volumes t 200 token ≡ good page

  -- The REST API hands out these volumes on so many pages from the token on: every page but the last
  -- names a next token, and the next page is what it answers to a request with that token.
  pub data VolumePages : ℕ → Option ℤ → Trace → List Volume → Trace → Type 0 where
    last :
        {token : Option ℤ} {t : Trace} (entries : List Volume)
        → Answers token t (record { entries = entries; next_token = none })
        → VolumePages 1 token t entries (
            Call.get_volumes 200 token (good (record { entries = entries; next_token = none })) ∷ t)
    next :
        {n : ℕ} {token : Option ℤ} {t t' : Trace} {rest : List Volume} (entries : List Volume)
        (k : ℤ)
        → Answers token t (record { entries = entries; next_token = some k })
        → VolumePages n
            (some k)
            (Call.get_volumes 200 token (good (record { entries = entries; next_token = some k }))
              ∷ t)
            rest
            t'
        → VolumePages (suc n) token t (entries ++ rest) t'

  page-answered :
      (token : Option ℤ) (t : Trace) (page : Volumes)
      → Answers token t page
      → volumes_page token env t
        ≡ (done (page.entries, page.next_token), Call.get_volumes 200 token (good page) ∷ t)
  unfolding volumes_page ◌>>=◌
  page-answered token t page a = rw a refl

  pub VolumePages-read :
      {n : ℕ} {token : Option ℤ} {t t' : Trace} {volumes : List Volume}
      → VolumePages n token t volumes t'
      → Pages env volumes_page n token t volumes t'
  VolumePages-read {token = token} {t = t} (last entries a) = last_page (page-answered token t _ a)
  VolumePages-read {token = token} {t = t} (next entries k a p) =
      next_page (page-answered token t _ a) (VolumePages-read p)
