-- ===== src/Exporter/Collector/Samples.antt =====
-- Looking up a sample among what was collected.
use mayastor_extensions.Prelude.{
  ℕ, String, Bool, true, false, ◌&&◌, ◌≡◌, refl, sym, ap, subst, ◌∙◌, Option, none, some, List, [],
  ◌∷◌, ◌++◌, All, length, str_eq, if◌then◌else◌,
}
use mayastor_extensions.Exporter.Cache.{Cache}
use mayastor_extensions.Exporter.Collector.{
  Env, GaugeVec, MetricFamily, Setting, collect, for_node, push, settings_of,
}

abbrev pub values_eq : List String → List String → Bool
values_eq [] [] = true
values_eq (v ∷ values) (w ∷ others) = str_eq v w && values_eq values others
values_eq _ _ = false

abbrev pub or_else : Option ℕ → Option ℕ → Option ℕ
or_else none later = later
or_else (some value) later = some value

abbrev pub value_if : Bool → ℕ → Option ℕ
value_if b value = if b then some value else none

-- The first sample of the metric with these label values.
abbrev pub sample : String → List String → List MetricFamily → Option ℕ
sample name values [] = none
sample name values (f ∷ families) =
    or_else (value_if (str_eq f.gauge.fq_name name && values_eq f.values values) f.value)
      (sample name values families)

-- As many values as labels: prometheus refuses no others.
pub record Accepts (env : Env) : Type 0 where
  pub at :
      (gauge : GaugeVec) (values : List String)
      → length values ≡ length gauge.labels
      → env.accepts gauge values ≡ true

-- The same, of settings.
abbrev setting : String → List String → List Setting → Option ℕ
setting name values [] = none
setting name values ((gauge, vs, value) ∷ settings) =
    or_else (value_if (str_eq gauge.fq_name name && values_eq vs values) value)
      (setting name values settings)

abbrev Fits : Setting → Type 0
Fits (gauge, values, value) = length values ≡ length gauge.labels

or_else_assoc : (a b c : Option ℕ) → or_else (or_else a b) c ≡ or_else a (or_else b c)
or_else_assoc none b c = refl
or_else_assoc (some a) b c = refl

pub sample-append :
    (name : String) (values : List String) (xs ys : List MetricFamily)
    → sample name values (xs ++ ys) ≡ or_else (sample name values xs) (sample name values ys)
sample-append name values [] ys = refl
sample-append name values (x ∷ xs) ys =
    let here = value_if (str_eq x.gauge.fq_name name && values_eq x.values values) x.value in
    ap (or_else here) (sample-append name values xs ys)
    ∙ sym (or_else_assoc here (sample name values xs) (sample name values ys))

setting-append :
    (name : String) (values : List String) (xs ys : List Setting)
    → setting name values (xs ++ ys) ≡ or_else (setting name values xs) (setting name values ys)
setting-append name values [] ys = refl
setting-append name values ((gauge, vs, value) ∷ xs) ys =
    let here = value_if (str_eq gauge.fq_name name && values_eq vs values) value in
    ap (or_else here) (setting-append name values xs ys)
    ∙ sym (or_else_assoc here (setting name values xs) (setting name values ys))

push-setting :
    (env : Env) (name : String) (values : List String) (settings : List Setting)
    → Accepts env
    → All Fits settings
    → sample name values (push env settings) ≡ setting name values settings
push-setting env name values [] a fits = refl
push-setting env name values ((gauge, vs, value) ∷ settings) a (fit, fits) =
    rw (a.at gauge vs fit) (ap (or_else _) (push-setting env name values settings a fits))

All-append : (xs ys : List Setting) → All Fits xs → All Fits ys → All Fits (xs ++ ys)
All-append [] ys h k = k
All-append (x ∷ xs) ys (h, hs) k = (h, All-append xs ys hs k)

-- The first item that has the metric with these values.
abbrev pub first_of {ℓ} : {A : Type ℓ} → (A → Option ℕ) → List A → Option ℕ
first_of f [] = none
first_of f (item ∷ items) = or_else (f item) (first_of f items)

module _ {A : Type 0} (body : A → List Setting) where
  settings_of-Fits :
      (items : List A) → ((item : A) → All Fits (body item)) → All Fits (settings_of body items)
  settings_of-Fits [] h = tt
  settings_of-Fits (item ∷ items) h = All-append (body item) _ (h item) (settings_of-Fits items h)

  setting-first :
      (name : String) (values : List String) (f : A → Option ℕ) (items : List A)
      → ((item : A) → setting name values (body item) ≡ f item)
      → setting name values (settings_of body items) ≡ first_of f items
  setting-first name values f [] h = refl
  setting-first name values f (item ∷ items) h =
      setting-append name values (body item) (settings_of body items)
      ∙ ap (λ o. or_else o (setting name values (settings_of body items))) (h item)
      ∙ ap (or_else (f item)) (setting-first name values f items h)

-- What a collector collects for a known node from an unpoisoned cache.
pub collect-first :
    {A : Type 0} (env : Env) (cache : Cache) (node name : String) (values : List String)
    (body : String → A → List Setting) (f : A → Option ℕ) (items : List A)
    → Accepts env
    → env.node_name ≡ some node
    → cache.poisoned ≡ false
    → ((item : A) → All Fits (body node item))
    → ((item : A) → setting name values (body node item) ≡ f item)
    → sample name values (collect env cache (λ node. settings_of (body node) items))
      ≡ first_of f items
collect-first env cache node name values body f items a named free fits is =
    subst (λ b. sample name values (if b then [] else for_node env settings) ≡ first_of f items)
      (sym free)
      (subst
        (λ o.
          sample name values (elim o [ none ↦ [] | some n ↦ push env (settings n) ])
          ≡ first_of f items)
        (sym named)
        (push-setting env name values (settings node) a (settings_of-Fits (body node) items fits)
          ∙ setting-first (body node) name values f items is))
  where
    settings : String → List Setting
    settings n = settings_of (body n) items

pub or_else-none : (a : Option ℕ) → or_else a none ≡ a
or_else-none none = refl
or_else-none (some a) = refl

first_of-none : {A : Type 0} (items : List A) → first_of (λ item. none) items ≡ none
first_of-none [] = refl
first_of-none (item ∷ items) = first_of-none items

-- A collector of other metrics has no sample of this one.
pub collect-none :
    {A : Type 0} (env : Env) (cache : Cache) (node name : String) (values : List String)
    (body : String → A → List Setting) (items : List A)
    → Accepts env
    → env.node_name ≡ some node
    → cache.poisoned ≡ false
    → ((item : A) → All Fits (body node item))
    → ((item : A) → setting name values (body node item) ≡ none)
    → sample name values (collect env cache (λ node. settings_of (body node) items)) ≡ none
collect-none env cache node name values body items a named free fits is =
    collect-first env cache node name values body (λ item. none) items a named free fits is
    ∙ first_of-none items
