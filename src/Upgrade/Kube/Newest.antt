-- ===== src/Upgrade/Kube/Newest.antt =====
-- The controller revision whose hash is taken is the newest one.
use mayastor_extensions.Prelude.{
  ◌≤◌, ◌≡◌, refl, ◌∙◌, ◌⊎◌, inl, inr, Bool, true, false, String, Option, none, some, List, [], ◌∷◌,
  All, Among, arith, ltb, if◌then◌else◌,
}
use mayastor_extensions.Upgrade.Models.{ControllerRevision}
use mayastor_extensions.Upgrade.Error.{Error}
use mayastor_extensions.Upgrade.Env.{Env, Trace}
use mayastor_extensions.Upgrade.Job.{done, ok_or, fail, pure}
use mayastor_extensions.Upgrade.Kube.{hash_of, label_of, latest}

abbrev pick : ControllerRevision → ControllerRevision → ControllerRevision
pick best r = if ltb best.revision r.revision then r else best

pick-bounds :
    (best r : ControllerRevision)
    → (best.revision ≤ (pick best r).revision) × (r.revision ≤ (pick best r).revision)
pick-bounds best r = (ground arith, ground arith)

pick-is : (best r : ControllerRevision) → (pick best r ≡ best) ⊎ (pick best r ≡ r)
pick-is best r = go (ltb best.revision r.revision)
  where
    go : (b : Bool) → ((if b then r else best) ≡ best) ⊎ ((if b then r else best) ≡ r)
    go true = inr refl
    go false = inl refl

latest-bounds :
    (rs : List ControllerRevision) (best : ControllerRevision)
    → (best.revision ≤ (latest best rs).revision)
      × All (λ r. r.revision ≤ (latest best rs).revision) rs
unfolding latest
latest-bounds [] best = (omega arith, tt)
latest-bounds (r ∷ rs) best =
    let (h, hs) = latest-bounds rs (pick best r) in
    let (b, c) = pick-bounds best r in (omega (arith, h, b), (omega (arith, h, c), hs))

latest-Among :
    (rs : List ControllerRevision) (best : ControllerRevision) → Among (latest best rs) (best ∷ rs)
unfolding latest
latest-Among [] best = inl refl
latest-Among (r ∷ rs) best = go (pick-is best r) (latest-Among rs (pick best r))
  where
    go :
        {x n : ControllerRevision}
        → (n ≡ best) ⊎ (n ≡ r)
        → Among x (n ∷ rs)
        → Among x (best ∷ r ∷ rs)
    go (inl e) (inl p) = inl (p ∙ e)
    go (inr e) (inl p) = inr (inl (p ∙ e))
    go e (inr h) = inr (inr h)

-- One of the listed revisions that has this hash, and none is newer.
pub record Newest (key hash : String) (revisions : List ControllerRevision) : Type 0 where
  pub revision : ControllerRevision
  pub among : Among revision revisions
  pub newest : All (λ r. r.revision ≤ revision.revision) revisions
  pub labelled : label_of key revision.labels ≡ some hash

ok_or-done :
    {A : Type 0} (o : Option A) (a : A) (env : Env) (t : Trace) (e : Error)
    → (ok_or o e env t).0 ≡ done a
    → o ≡ some a
unfolding ok_or fail pure
ok_or-done none a env t e h = absurd (cc h)
ok_or-done (some x) a env t e h = cc

-- A hash that `hash_of` returns, which the data plane is then upgraded to, is the label of a listed
-- controller revision that no other one exceeds.
pub hash_of-Newest :
    (env : Env) (namespace : String) (labels fields : Option String) (key hash : String)
    (revisions : List ControllerRevision) (t : Trace)
    → (hash_of namespace labels fields key revisions env t).0 ≡ done hash
    → Newest key hash revisions
unfolding hash_of fail
hash_of-Newest env namespace labels fields key hash [] t h = absurd (cc h)
hash_of-Newest env namespace labels fields key hash (r ∷ rs) t h = record {
  revision = latest r rs;
  among = latest-Among rs r;
  newest = latest-bounds rs r;
  labelled = ok_or-done _ hash env t _ h;
}
