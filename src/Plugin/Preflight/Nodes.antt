-- ===== src/Plugin/Preflight/Nodes.antt =====
-- What the check of the nodes finds in the cluster.
use mayastor_extensions.Prelude.{
  String, Bool, true, false, ◌≡◌, refl, sym, subst, ap, ◌∙◌, ◌↔◌, Option, none, some, List, [], ◌∷◌,
  ◌++◌, All, if◌then◌else◌,
}
use mayastor_extensions.Effect.Run.{bind_done}
use mayastor_extensions.Upgrade.Models.{Node, NodeSpec}
use mayastor_extensions.Plugin.Error.{Error, list_storage_nodes}
use mayastor_extensions.Plugin.Env.{Call, Env, Trace, good}
use mayastor_extensions.Plugin.Preflight.{
  already_cordoned_nodes_validation, cordoned_loop, is_cordoned, refuse_cordoned,
}
use mayastor_extensions.Plugin.Task.{M, answer, done, fail, note, ok_or, request, ◌>>=◌}

-- The node may take part in the upgrade: it has a spec, and is not cordoned.
abbrev pub Schedulable : Node → Type 0
Schedulable node =
    (spec : NodeSpec) × (node.spec ≡ some spec) × (is_cordoned spec.cordondrainstate ≡ false)

not_cordoned :
    {A : Type 0} (l : List A) (b : Bool) (x : A)
    → (if b then l ++ (x ∷ []) else l) ≡ []
    → (b ≡ false) × (l ≡ [])
not_cordoned l false x h = (refl, h)
not_cordoned [] true x h = absurd (cc h)
not_cordoned (y ∷ l) true x h = absurd (cc h)

module _ (env : Env) where
  refuse-nil :
      (names : List String) (t : Trace) → (refuse_cordoned names env t).0 ≡ done tt → names ≡ []
  unfolding refuse_cordoned note fail ◌>>=◌
  refuse-nil [] t h = refl
  refuse-nil (name ∷ names) t h = absurd (cc h)

  with_spec :
      {A : Type 0} (spec : Option NodeSpec) (e : Error) (f : NodeSpec → M A) (g : A → M (Unit {0}))
      (t : Trace)
      → ((ok_or spec e >>= f >>= g) env t).0 ≡ done tt
      → (s : NodeSpec) × (spec ≡ some s) × (((f s >>= g) env t).0 ≡ done tt)
  unfolding ok_or ◌>>=◌
  with_spec none e f g t h = absurd (cc h)
  with_spec (some s) e f g t h = (s, refl, h)

  loop-Schedulable :
      (nodes : List Node) (names : List String) (t : Trace)
      → ((cordoned_loop nodes names >>= refuse_cordoned) env t).0 ≡ done tt
      → (names ≡ []) × All Schedulable nodes
  unfolding cordoned_loop ◌>>=◌
  loop-Schedulable [] names t h = (refuse-nil names t h, tt)
  loop-Schedulable (node ∷ nodes) names t h =
      let (spec, e, h') = with_spec node.spec _ _ refuse_cordoned t h in
      let (empty, rest) = loop-Schedulable nodes _ t h' in
      let (clear, none_before) =
        not_cordoned names (is_cordoned spec.cordondrainstate) node.id empty in
      (none_before, ((spec, e, clear), rest))

  with_some :
      {A : Type 0} (spec : Option NodeSpec) (s : NodeSpec) (e : Error) (f : NodeSpec → M A)
      (g : A → M (Unit {0})) (t : Trace)
      → spec ≡ some s
      → (ok_or spec e >>= f >>= g) env t ≡ (f s >>= g) env t
  unfolding ok_or ◌>>=◌
  with_some spec s e f g t h = rw h refl

  Schedulable-loop :
      (nodes : List Node) (t : Trace)
      → All Schedulable nodes
      → ((cordoned_loop nodes [] >>= refuse_cordoned) env t).0 ≡ done tt
  unfolding cordoned_loop refuse_cordoned ◌>>=◌
  Schedulable-loop [] t h = refl
  Schedulable-loop (node ∷ nodes) t ((spec, e, clear), rest) =
      ap (λ r. r.0) (with_some node.spec spec _ _ refuse_cordoned t e)
      ∙ rw clear (Schedulable-loop nodes t rest)

-- When the REST API answers with the storage nodes, the check for cordoned nodes passes exactly if
-- every node has a spec and none is cordoned.
pub cordon_validation-Schedulable :
    (env : Env) (t : Trace) (nodes : List Node)
    → env.get_nodes t ≡ good nodes
    → ((already_cordoned_nodes_validation env t).0 ≡ done tt) ↔ All Schedulable nodes
unfolding already_cordoned_nodes_validation request
cordon_validation-Schedulable env t nodes e =
    subst (λ r. (r.0 ≡ done tt) ↔ All Schedulable nodes)
      (sym (
        bind_done _ _ env t (Call.get_nodes (good nodes) ∷ t) nodes
          (ap (λ r. answer list_storage_nodes r (Call.get_nodes r ∷ t)) e)))
      ((λ h. (loop-Schedulable env nodes [] _ h).1), λ h. Schedulable-loop env nodes _ h)
