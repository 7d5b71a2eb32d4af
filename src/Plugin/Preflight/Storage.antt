-- ===== src/Plugin/Preflight/Storage.antt =====
-- What the checks of volumes find in the cluster.
use mathlib.Core.List.{map-append}
use mayastor_extensions.Prelude.{
  ℕ, zero, suc, ℤ, pos, ◌≤◌, String, Bool, true, false, ◌||◌, ◌≡◌, refl, sym, subst, ap, ◌∙◌, ◌↔◌,
  Option, none, some, List, [], ◌∷◌, ◌++◌, any, keep, map, arith, ◌==◌, if◌then◌else◌,
}
use mayastor_extensions.Effect.Hoare.{
  Hoare, Hoare-bind, Hoare-fail, Hoare-pure, Hoare-request, Post-done,
}
use mayastor_extensions.Effect.Run.{bind_done, bind_value}
use mayastor_extensions.Effect.Paging.{Pages, last_page, next_page, paginate_all}
use mayastor_extensions.Plugin.Error.{volume_rebuild_in_progress}
use mayastor_extensions.Plugin.Env.{Env, Prompt, Trace, Volume}
use mayastor_extensions.Plugin.Preflight.{
  get_pvc_from_uuid, has_one_replica, has_rebuild, is_rebuild_in_progress, rebuild_found,
  rebuild_in_progress_validation, rebuild_loop, refuse_single, single_rep_vol_ids,
  single_replica_page, single_volume_replica_validation, volumes_page, with_rounds,
}
use mayastor_extensions.Plugin.Preflight.Listed.{VolumePages, VolumePages-read}
use mayastor_extensions.Plugin.Task.{client, done, error, fail, failed, note, pure, ◌>>=◌, ◌>>◌}

-- There is a target, and it rebuilds one of its children: the child has a progress.
abbrev some_progress : Option (List (Option ℕ)) → Bool
some_progress none = false
some_progress (some []) = false
some_progress (some (none ∷ children)) = some_progress (some children)
some_progress (some (some progress ∷ children)) = true

abbrev pub rebuilding : Volume → Bool
rebuilding volume = some_progress volume.rebuilds

has_rebuild-progress :
    (target : Option (List (Option ℕ))) → has_rebuild target ≡ some_progress target
has_rebuild-progress none = refl
has_rebuild-progress (some []) = refl
has_rebuild-progress (some (none ∷ children)) = has_rebuild-progress (some children)
has_rebuild-progress (some (some progress ∷ children)) = refl

any-rebuilding :
    (volumes : List Volume)
    → any (λ volume. has_rebuild volume.rebuilds) volumes ≡ any rebuilding volumes
any-rebuilding volumes =
    ap {A = Volume → Bool} (λ p. any p volumes) (λ i volume. has_rebuild-progress volume.rebuilds i)

any-append : {A : Type 0} (p : A → Bool) (xs ys : List A) → any p (xs ++ ys) ≡ any p xs || any p ys
any-append p [] ys = refl
any-append p (x ∷ xs) ys = ground (arith, any-append p xs ys)

keep-append :
    {A : Type 0} (p : A → Bool) (xs ys : List A) → keep p (xs ++ ys) ≡ keep p xs ++ keep p ys
keep-append p [] ys = refl
keep-append p (x ∷ xs) ys = ground (arith, keep-append p xs ys)

-- The code's test of one volume.
abbrev found : Volume → Bool
found volume = has_rebuild volume.rebuilds

loop-rebuilding :
    (env : Env) (fuel n : ℕ) (token : Option ℤ) (t t' : Trace) (items : List Volume)
    → Pages env volumes_page n token t items t'
    → n ≤ fuel
    → (rebuild_loop fuel token env t).0 ≡ done (any found items)
unfolding rebuild_loop rebuild_found pure
loop-rebuilding env zero n token t t' items (last_page e) le = absurd (omega arith)
loop-rebuilding env zero n token t t' items (next_page e p) le = absurd (omega arith)
loop-rebuilding env (suc fuel) n token t t' items (last_page e) le =
    ap (λ r. r.0) (bind_done _ _ env t t' (items, none) e) ∙ at_end (any found items)
  where
    at_end : (b : Bool) → (rebuild_found b (rebuild_loop fuel) none env t').0 ≡ done b
    at_end true = refl
    at_end false = refl
loop-rebuilding env (suc fuel) n token t t' all
      (next_page {k = k} {t₁ = t₁} {items = items} {rest = rest} e p) le =
    ap (λ r. r.0) (bind_done _ _ env t t₁ (items, some k) e)
    ∙ go_on (any found items) (loop-rebuilding env fuel _ (some k) t₁ t' rest p (omega arith))
    ∙ ap done (sym (any-append found items rest))
  where
    go_on :
        (b : Bool)
        → (rebuild_loop fuel (some k) env t₁).0 ≡ done (any found rest)
        → (rebuild_found b (rebuild_loop fuel) (some k) env t₁).0 ≡ done (b || any found rest)
    go_on true h = refl
    go_on false h = h

refused :
    (b : Bool) (env : Env) (t : Trace)
    → ((if b then (error Prompt.rebuild_warning "" >> fail volume_rebuild_in_progress) else pure tt)
        env t).0
      ≡ (if b then failed volume_rebuild_in_progress else done tt)
unfolding note fail pure ◌>>=◌
refused true env t = refl
refused false env t = refl

-- When the REST API lists the volumes in so many pages, following the tokens from 0 on, that the
-- rounds suffice for, the check for rebuilds fails if the target of any listed volume, on whichever
-- page, is rebuilding a child, and passes otherwise.
pub rebuild_validation-any :
    (env : Env) (t t' : Trace) (n : ℕ) (volumes : List Volume)
    → VolumePages env n (some (pos 0)) t volumes t'
    → n ≤ env.rounds
    → (rebuild_in_progress_validation env t).0
      ≡ (if any rebuilding volumes then failed volume_rebuild_in_progress else done tt)
unfolding rebuild_in_progress_validation is_rebuild_in_progress with_rounds
rebuild_validation-any env t t' n volumes pages le =
    let h =
      loop-rebuilding env env.rounds n (some (pos 0)) t t' volumes (VolumePages-read env pages) le
      ∙ ap done (any-rebuilding volumes) in
    ap (λ r. r.0) (bind_value is_rebuild_in_progress _ env t (any rebuilding volumes) h)
    ∙ refused (any rebuilding volumes) env (is_rebuild_in_progress env t).1

ids-append :
    (xs ys : List Volume)
    → single_rep_vol_ids (xs ++ ys) ≡ single_rep_vol_ids xs ++ single_rep_vol_ids ys
ids-append xs ys =
    ap (map (λ volume. volume.uuid)) (keep-append has_one_replica xs ys)
    ∙ map-append _ (keep has_one_replica xs) (keep has_one_replica ys)

-- The pages that the check of the replicas reads.
single-Pages :
    (env : Env) {n : ℕ} {token : Option ℤ} {t t' : Trace} {items : List Volume}
    → Pages env volumes_page n token t items t'
    → Pages env single_replica_page n token t (single_rep_vol_ids items) t'
unfolding single_replica_page pure
single-Pages env {t = t} {t' = t'} {items = items} (last_page e) =
    last_page (bind_done _ _ env t t' (items, none) e)
single-Pages env {n} {token} {t} {t'}
      (next_page {k = k} {t₁ = t₁} {items = items} {rest = rest} e p) =
    subst (λ l. Pages env single_replica_page n token t l t') (sym (ids-append items rest))
      (next_page (bind_done _ _ env t t₁ (items, some k) e) (single-Pages env p))

-- Whether there is an identifier in the list.
data Shape (b : Bool) (ids : List String) : Type 0 where
  nothing : b ≡ false → ids ≡ [] → Shape b ids
  something : (id : String) (more : List String) → b ≡ true → ids ≡ id ∷ more → Shape b ids

ids-Shape :
    (volumes : List Volume) → Shape (any has_one_replica volumes) (single_rep_vol_ids volumes)
ids-Shape [] = nothing refl refl
ids-Shape (v ∷ volumes) = go (has_one_replica v) (ids-Shape volumes)
  where
    go :
        (b : Bool)
        → Shape (any has_one_replica volumes) (single_rep_vol_ids volumes)
        → Shape (b || any has_one_replica volumes) (
            map
              (λ volume. volume.uuid)
              (if b then v ∷ keep has_one_replica volumes else keep has_one_replica volumes))
    go true s = something v.uuid (single_rep_vol_ids volumes) refl refl
    go false s = s

-- Whatever the claims are, the check fails.
refuse_single-fails :
    (env : Env) (id : String) (more : List String)
    → Hoare env (λ t. Unit {0}) (refuse_single (id ∷ more)) (λ _ t. ⊥) (λ t. Unit {0})
unfolding refuse_single get_pvc_from_uuid client note
refuse_single-fails env id more =
    Hoare-bind {Q = λ _ t. Unit {0}} _ _
      (Hoare-bind {Q = λ _ t. Unit {0}} _ _ (Hoare-request _ _ _ (λ t a h. tt) (λ t s h. tt)) λ _.
        Hoare-bind {Q = λ _ t. Unit {0}} _ _ (Hoare-request _ _ _ (λ t a h. tt) (λ t s h. tt))
          λ pvc_list. Hoare-pure _ (λ t h. tt))
      λ claims.
        Hoare-bind {Q = λ _ t. Unit {0}} _ _ (record { at = λ t h. tt })
          λ _. Hoare-fail _ (λ t h. tt)

refuse-any :
    (volumes : List Volume) (env : Env) (t : Trace)
    → ((refuse_single (single_rep_vol_ids volumes) env t).0 ≡ done tt)
      ↔ (any has_one_replica volumes ≡ false)
unfolding refuse_single pure
refuse-any volumes env t =
    go (any has_one_replica volumes) (single_rep_vol_ids volumes) (ids-Shape volumes)
  where
    fails : (id : String) (more : List String) → ¬ ((refuse_single (id ∷ more) env t).0 ≡ done tt)
    fails id more e =
        let (r, t') = refuse_single (id ∷ more) env t in
        Post-done (λ _ t. ⊥) (λ t. Unit {0}) r t' tt e ((refuse_single-fails env id more).at t tt)

    go :
        (b : Bool) (ids : List String)
        → Shape b ids
        → ((refuse_single ids env t).0 ≡ done tt) ↔ (b ≡ false)
    go b ids (nothing f e) = (λ h. f, λ h. rw e refl)
    go b ids (something id more f e) = (
      (λ h. absurd (fails id more (subst (λ l. (refuse_single l env t).0 ≡ done tt) e h))),
      λ h. absurd cc,
    )

-- When the REST API lists the volumes in so many pages, following the tokens from 0 on, that the
-- rounds suffice for, the check for single replicas passes exactly if none of the listed volumes, on
-- whichever page, has one replica.
pub replica_validation-any :
    (env : Env) (t t' : Trace) (n : ℕ) (volumes : List Volume)
    → VolumePages env n (some (pos 0)) t volumes t'
    → n ≤ env.rounds
    → ((single_volume_replica_validation env t).0 ≡ done tt)
      ↔ (any (λ volume. volume.num_replicas == 1) volumes ≡ false)
unfolding single_volume_replica_validation with_rounds
replica_validation-any env t t' n volumes pages le =
    subst (λ r. (r.0 ≡ done tt) ↔ (any has_one_replica volumes ≡ false))
      (sym (
        bind_done _ _ env t t' (single_rep_vol_ids volumes) (
          paginate_all env single_replica_page env.rounds []
            (single-Pages env (VolumePages-read env pages)) le)))
      (refuse-any volumes env t')
