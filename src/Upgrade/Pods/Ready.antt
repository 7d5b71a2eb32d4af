-- ===== src/Upgrade/Pods/Ready.antt =====
-- When `all_pods_are_ready` says yes.
use mayastor_extensions.Prelude.{
  true, ◌≡◌, ◌≢◌, refl, ◌↔◌, Option, none, some, List, [], ◌∷◌, All, arith, eq_iff, str_eq,
  Bool-cases, inl, inr,
}
use mayastor_extensions.Upgrade.Models.{Pod, PodCondition}
use mayastor_extensions.Upgrade.Pods.{
  conditions_of, conditions_pass, pod_passes, all_pods_are_ready,
}

-- The first condition of type "Ready", if there is one, has the status "True".
pub data FirstReadyHolds : List PodCondition → Type 0 where
  no_condition : FirstReadyHolds []
  holds :
      (c : PodCondition) (cs : List PodCondition)
      → c.type_ ≡ "Ready"
      → c.status ≡ "True"
      → FirstReadyHolds (c ∷ cs)
  other :
      (c : PodCondition) (cs : List PodCondition)
      → c.type_ ≢ "Ready"
      → FirstReadyHolds cs
      → FirstReadyHolds (c ∷ cs)

-- The Pod reports conditions, and they pass.
pub record PassesAsReady (pod : Pod) : Type 0 where
  pub conditions : List PodCondition
  pub reported : conditions_of pod.status ≡ some conditions
  pub first : FirstReadyHolds conditions

conditions_pass-FirstReadyHolds :
    (cs : List PodCondition) → conditions_pass cs ≡ true → FirstReadyHolds cs
unfolding conditions_pass
conditions_pass-FirstReadyHolds [] h = no_condition
conditions_pass-FirstReadyHolds (c ∷ cs) h = elim (Bool-cases (str_eq c.type_ "Ready")) [
  | inl e ↦ holds c cs ((eq_iff c.type_ "Ready").0 e) ((eq_iff c.status "True").0 (ground arith))
  | inr e ↦
      other c cs (λ p. cc ((eq_iff c.type_ "Ready").1 p))
        (conditions_pass-FirstReadyHolds cs (ground arith))
]

FirstReadyHolds-pass : {cs : List PodCondition} → FirstReadyHolds cs → conditions_pass cs ≡ true
unfolding conditions_pass
FirstReadyHolds-pass no_condition = refl
FirstReadyHolds-pass (holds c cs e s) =
    ground (arith, eq_iff c.type_ "Ready", eq_iff c.status "True")
FirstReadyHolds-pass (other c cs e h) =
    ground (arith, eq_iff c.type_ "Ready", FirstReadyHolds-pass h)

pod_passes-PassesAsReady :
    (pod : Pod) → pod_passes (conditions_of pod.status) ≡ true → PassesAsReady pod
unfolding pod_passes
pod_passes-PassesAsReady pod h = go (conditions_of pod.status) refl h
  where
    go :
        (o : Option (List PodCondition))
        → conditions_of pod.status ≡ o
        → pod_passes o ≡ true
        → PassesAsReady pod
    go none e h = cc
    go (some cs) e h = record {
      conditions = cs;
      reported = e;
      first = conditions_pass-FirstReadyHolds cs h;
    }

PassesAsReady-pass : {pod : Pod} → PassesAsReady pod → pod_passes (conditions_of pod.status) ≡ true
unfolding pod_passes
PassesAsReady-pass p = rw p.reported (FirstReadyHolds-pass p.first)

ready-PassesAsReady : (pods : List Pod) → all_pods_are_ready pods ≡ true → All PassesAsReady pods
unfolding all_pods_are_ready
ready-PassesAsReady [] h = tt
ready-PassesAsReady (p ∷ ps) h =
    (pod_passes-PassesAsReady p (ground arith), ready-PassesAsReady ps (ground arith))

PassesAsReady-ready : (pods : List Pod) → All PassesAsReady pods → all_pods_are_ready pods ≡ true
unfolding all_pods_are_ready
PassesAsReady-ready [] h = refl
PassesAsReady-ready (p ∷ ps) h = rw (PassesAsReady-pass h.0) (PassesAsReady-ready ps h.1)

-- The check says yes exactly if every Pod reports conditions, of which the first of type "Ready",
-- if there is one, has the status "True".
pub all_pods_are_ready_iff :
    (pods : List Pod) → (all_pods_are_ready pods ≡ true) ↔ All PassesAsReady pods
all_pods_are_ready_iff pods = (ready-PassesAsReady pods, PassesAsReady-ready pods)
