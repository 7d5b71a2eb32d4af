-- ===== src/Plugin/Resources/Steps.antt =====
-- What each action on a kind of object keeps and shows.
use mayastor_extensions.Prelude.{
  String, Bool, true, false, ◌≡◌, refl, Option, none, some, List, [], ◌∷◌, All, eq_refl,
}
use mayastor_extensions.Effect.Hoare.{Hoare, Hoare-bind, Hoare-pure, Hoare-request, Hoare-weaken}
use mayastor_extensions.Plugin.Env.{
  Env, Trace, Call, Found, Kind, Object, Reply, bad, create, delete, delete_events, get_opt, good,
}
use mayastor_extensions.Plugin.Resources
use mayastor_extensions.Plugin.Resources.{Actions, act, create_object, delete_object, name_of}
use mayastor_extensions.Plugin.Resources.Seen.{
  AllSeen, InOrder, Orderly, is_other, is_there, kind_eq, kind_of, last_seen, object_name, shows,
}
use mayastor_extensions.Plugin.Task.{M, ◌>>=◌}

shows-other : (k : Kind) (name : String) (c : Call) → is_other c ≡ true → shows k name c ≡ none
shows-other k name (get_opt _ _ _) h = absurd (cc h)
shows-other k name (create _ _) h = absurd (cc h)
shows-other k name (delete _ _ _) h = absurd (cc h)
shows-other k name (delete_events _ _) h = absurd (cc h)
shows-other k name _ h = refl

InOrder-other : (env : Env) (t : Trace) (c : Call) → is_other c ≡ true → InOrder env t c
InOrder-other env t (get_opt _ _ _) h = absurd (cc h)
InOrder-other env t (create _ _) h = absurd (cc h)
InOrder-other env t (delete _ _ _) h = absurd (cc h)
InOrder-other env t (delete_events _ _) h = absurd (cc h)
InOrder-other env t _ h = tt

module _ (env : Env) (b : Bool) (release : String) (kinds : List Kind) where
  -- All calls were in order, and these objects were last seen as `b` says.
  abbrev pub Sees : Trace → Type 0
  Sees t = Orderly env t × AllSeen env b release kinds t

  abbrev Keeps-Sees : {A : Type 0} → M A → Type 0
  Keeps-Sees m = Hoare env Sees m (λ _. Sees) (Orderly env)

pub Orderly-other :
    (env : Env) (t : Trace) (c : Call) → is_other c ≡ true → Orderly env t → Orderly env (c ∷ t)
Orderly-other env t c other h = (InOrder-other env t c other, h)

AllSeen-other :
    (env : Env) (b : Bool) (release : String) (kinds : List Kind) (t : Trace) (c : Call)
    → is_other c ≡ true
    → AllSeen env b release kinds t
    → AllSeen env b release kinds (c ∷ t)
AllSeen-other env b release [] t c other h = tt
AllSeen-other env b release (k ∷ kinds) t c other h = (
  rw (shows-other k (name_of env release k) c other) h.0,
  AllSeen-other env b release kinds t c other h.1,
)

pub Sees-other :
    (env : Env) (b : Bool) (release : String) (kinds : List Kind) (t : Trace) (c : Call)
    → is_other c ≡ true
    → Sees env b release kinds t
    → Sees env b release kinds (c ∷ t)
Sees-other env b release kinds t c other h =
    ((InOrder-other env t c other, h.0), AllSeen-other env b release kinds t c other h.1)

shows-get :
    (k k' : Kind) (n n' : String) (r : Reply (Option Found))
    → kind_eq k k' ≡ false
    → shows k' n' (get_opt k n r) ≡ none
shows-get k k' n n' (good found) e = rw e refl
shows-get k k' n n' (bad s) e = refl

shows-create :
    (o : Object) (k' : Kind) (n' : String) (r : Reply Unit)
    → kind_eq (kind_of o) k' ≡ false
    → shows k' n' (create o r) ≡ none
shows-create o k' n' (good tt) e = rw e refl
shows-create o k' n' (bad s) e = refl

shows-delete :
    (k k' : Kind) (n n' : String) (r : Reply Unit)
    → kind_eq k k' ≡ false
    → shows k' n' (delete k n r) ≡ none
shows-delete k k' n n' (good tt) e = rw e refl
shows-delete k k' n n' (bad s) e = refl

kind_eq_refl : (k : Kind) → kind_eq k k ≡ true
kind_eq_refl Kind.service_account = refl
kind_eq_refl Kind.cluster_role = refl
kind_eq_refl Kind.cluster_role_binding = refl
kind_eq_refl Kind.config_map = refl
kind_eq_refl Kind.job = refl

-- The kind is not among these.
abbrev Avoids : Kind → List Kind → Type 0
Avoids k kinds = All (λ k'. kind_eq k k' ≡ false) kinds

module _ (env : Env) (b : Bool) (release : String) where
  AllSeen-Avoids :
      (k : Kind) (kinds : List Kind) (t : Trace) (c : Call)
      → Avoids k kinds
      → ((k' : Kind) (n : String) → kind_eq k k' ≡ false → shows k' n c ≡ none)
      → AllSeen env b release kinds t
      → AllSeen env b release kinds (c ∷ t)
  AllSeen-Avoids k [] t c a s h = tt
  AllSeen-Avoids k (k' ∷ kinds) t c a s h =
      (rw (s k' (name_of env release k') a.0) h.0, AllSeen-Avoids k kinds t c a.1 s h.1)

  -- What is known when the object was found, or not.
  abbrev pub Looked : Kind → List Kind → Option Found → Trace → Type 0
  Looked k kinds found t =
      (last_seen k (name_of env release k) t ≡ some (is_there found)) × Sees env b release kinds t

  pub look-Looked :
      (k : Kind) (kinds : List Kind)
      → Avoids k kinds
      → Hoare env
          (Sees env b release kinds)
          (Resources.get_opt k (name_of env release k))
          (Looked k kinds)
          (Orderly env)
  unfolding Resources.get_opt
  look-Looked k kinds a =
      Hoare-request _ _ _
        (λ t found h. (
          rw (kind_eq_refl k, eq_refl (name_of env release k)) refl,
          (
            (tt, h.0),
            AllSeen-Avoids k kinds t (get_opt k (name_of env release k) (good found)) a
                (λ k' n e. shows-get k k' (name_of env release k) n (good found) e) h.1,
          ),
        ))
        (λ t s h. (tt, h.0))

-- An object that is not there is created.
pub act-Looked :
    (env : Env) (release : String) (k : Kind) (kinds : List Kind) (creation : M (Unit {0}))
    → Hoare env
        (Sees env true release kinds)
        creation
        (λ _. Sees env true release (k ∷ kinds))
        (Orderly env)
    → (found : Option Found)
    → Hoare env
        (Looked env true release k kinds found)
        (act k (name_of env release k) creation Actions.create found)
        (λ _. Sees env true release (k ∷ kinds))
        (Orderly env)
unfolding act
act-Looked env release k kinds creation h none = Hoare-weaken (λ t l. l.1) h (λ _ t s. s)
act-Looked env release k kinds creation h (some found) =
    Hoare-pure tt (λ t l. (l.1.0, (l.0, l.1.1)))

pub act-Creates :
    (env : Env) (release : String) (k : Kind) (kinds : List Kind) (creation : M (Unit {0}))
    → Avoids k kinds
    → Hoare env
        (Sees env true release kinds)
        creation
        (λ _. Sees env true release (k ∷ kinds))
        (Orderly env)
    → Hoare env
        (Sees env true release kinds)
        (Resources.get_opt k (name_of env release k) >>= λ found.
          act k (name_of env release k) creation Actions.create found)
        (λ _. Sees env true release (k ∷ kinds))
        (Orderly env)
act-Creates env release k kinds creation a h =
    Hoare-bind _ _ (look-Looked env true release k kinds a)
      (act-Looked env release k kinds creation h)

pub create_object-Creates :
    (env : Env) (release : String) (kinds : List Kind) (o : Object)
    → Avoids (kind_of o) kinds
    → object_name o ≡ name_of env release (kind_of o)
    → ((t : Trace) (r : Reply Unit) → AllSeen env true release kinds t → InOrder env t (create o r))
    → Hoare env
        (Sees env true release kinds)
        (create_object (kind_of o) (name_of env release (kind_of o)) o)
        (λ _. Sees env true release (kind_of o ∷ kinds))
        (Orderly env)
unfolding create_object
create_object-Creates env release kinds o a e order =
    Hoare-request _ _ _
      (λ t r h. (
        (order t (good r) h.1, h.0),
        (
          rw (e, kind_eq_refl (kind_of o), eq_refl (name_of env release (kind_of o))) refl,
          AllSeen-Avoids env true release (kind_of o) kinds t (create o (good r)) a
              (λ k' n e. shows-create o k' n (good r) e) h.1,
        ),
      ))
      (λ t s h. (order t (bad s) h.1, h.0))

-- An object that is there is deleted.
pub delete_object-Deletes :
    (env : Env) (release : String) (k : Kind) (kinds : List Kind)
    → Avoids k kinds
    → ((t : Trace) (r : Reply Unit)
        → AllSeen env false release kinds t
        → InOrder env t (delete k (name_of env release k) r))
    → Hoare env
        (Sees env false release kinds)
        (delete_object k (name_of env release k))
        (λ _. Sees env false release (k ∷ kinds))
        (Orderly env)
unfolding delete_object
delete_object-Deletes env release k kinds a order =
    Hoare-request _ _ _
      (λ t r h. (
        (order t (good r) h.1, h.0),
        (
          rw (kind_eq_refl k, eq_refl (name_of env release k)) refl,
          AllSeen-Avoids env false release k kinds t (delete k (name_of env release k) (good r)) a
              (λ k' n e. shows-delete k k' (name_of env release k) n (good r) e) h.1,
        ),
      ))
      (λ t s h. (order t (bad s) h.1, h.0))

pub act-Gone :
    (env : Env) (release : String) (k : Kind) (kinds : List Kind) (creation : M (Unit {0}))
    → Avoids k kinds
    → ((t : Trace) (r : Reply Unit)
        → AllSeen env false release kinds t
        → InOrder env t (delete k (name_of env release k) r))
    → (found : Option Found)
    → Hoare env
        (Looked env false release k kinds found)
        (act k (name_of env release k) creation Actions.delete found)
        (λ _. Sees env false release (k ∷ kinds))
        (Orderly env)
unfolding act
act-Gone env release k kinds creation a order none = Hoare-pure tt (λ t l. (l.1.0, (l.0, l.1.1)))
act-Gone env release k kinds creation a order (some found) =
    Hoare-weaken (λ t l. l.1) (delete_object-Deletes env release k kinds a order) (λ _ t s. s)

pub act-Deletes :
    (env : Env) (release : String) (k : Kind) (kinds : List Kind) (creation : M (Unit {0}))
    → Avoids k kinds
    → ((t : Trace) (r : Reply Unit)
        → AllSeen env false release kinds t
        → InOrder env t (delete k (name_of env release k) r))
    → Hoare env
        (Sees env false release kinds)
        (Resources.get_opt k (name_of env release k) >>= λ found.
          act k (name_of env release k) creation Actions.delete found)
        (λ _. Sees env false release (k ∷ kinds))
        (Orderly env)
act-Deletes env release k kinds creation a order =
    Hoare-bind _ _ (look-Looked env false release k kinds a)
      (act-Gone env release k kinds creation a order)
