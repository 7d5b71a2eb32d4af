-- ===== src/Plugin/Apply/Dry.antt =====
-- A dry run, and the request of the status, only look around.
use mayastor_extensions.Prelude.{String, Bool, true, false, ◌≡◌, [], ◌∷◌, All, refl}
use mayastor_extensions.Effect.Hoare.{Post-always}
use mayastor_extensions.Plugin.Env.{Call, Env, Trace}
use mayastor_extensions.Plugin.Objects.{UpgradeArgs}
use mayastor_extensions.Plugin.Resources.Seen.{is_other}
use mayastor_extensions.Plugin.Apply.{execute, get_upgrade, dummy_apply}
use mayastor_extensions.Plugin.Apply.Others.{Stays-dummy_apply, Stays-get_upgrade}

-- The call changes the cluster.
abbrev pub changes : Call → Bool
changes (Call.create object reply) = true
changes (Call.delete kind name reply) = true
changes (Call.delete_events selector reply) = true
changes _ = false

abbrev pub ReadsOnly : Trace → Type 0
ReadsOnly t = All (λ call. changes call ≡ false) t

step : (t : Trace) (c : Call) → is_other c ≡ true → ReadsOnly t → ReadsOnly (c ∷ t)
step t (Call.create _ _) k h = absurd (cc k)
step t (Call.delete _ _ _) k h = absurd (cc k)
step t (Call.delete_events _ _) k h = absurd (cc k)
step t _ k h = (refl, h)

dry-ReadsOnly :
    (ns : String) (args : UpgradeArgs) (env : Env) → ReadsOnly (dummy_apply ns args env []).1
dry-ReadsOnly ns args env =
    let (r, t) = dummy_apply ns args env [] in
    Post-always r t (λ _ t h. h)
      ((Stays-dummy_apply env ReadsOnly ReadsOnly (λ t h. h) step ns args).at [] tt)

-- An upgrade that is a dry run makes no call that creates or deletes anything in the cluster, and
-- neither does the command that shows the status, whatever the cluster answers.
pub execute-ReadsOnly :
    (ns : String) (args : UpgradeArgs) (env : Env)
    → args.dry_run ≡ true
    → ReadsOnly (execute ns args env []).1 × ReadsOnly (get_upgrade ns env []).1
unfolding execute get_upgrade
execute-ReadsOnly ns args env dry =
    let (r, t) = get_upgrade ns env [] in
    (
      simp dry (dry-ReadsOnly ns args env),
      Post-always r t (λ _ t h. h)
          ((Stays-get_upgrade env ReadsOnly ReadsOnly (λ t h. h) step ns).at [] tt),
    )
