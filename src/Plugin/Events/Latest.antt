-- ===== src/Plugin/Events/Latest.antt =====
-- Which event is taken for the latest.
use mayastor_extensions.Prelude.{
  ap, subst, ◌∙◌, ℕ, ◌≡◌, refl, String, Bool, true, false, Option, none, some, List, [], ◌∷◌, All,
  Among, keep, arith, inl, inr, if◌then◌else◌,
}
use mayastor_extensions.Plugin.Env.{Event}
use mayastor_extensions.Plugin.Events.{earlier, has_reason, insert_event, latest_of, sort_by_time}
use mayastor_extensions.Plugin.Deployment.{first}

-- One of the listed events with the reason, and none of these is later.
pub record IsLatest (reason : String) (events : List Event) (e : Event) : Type 0 where
  pub among : Among e events
  pub of_reason : has_reason reason e.reason ≡ true
  pub latest :
      All
        (λ f. earlier e.event_time f.event_time ≡ false)
        (keep (λ f. has_reason reason f.reason) events)

earlier_trans : (a b c : Option ℕ) → earlier a b ≡ false → earlier b c ≡ false → earlier a c ≡ false
earlier_trans a b none h k = refl
earlier_trans none none (some c) h k = absurd (cc k)
earlier_trans none (some b) (some c) h k = absurd (cc h)
earlier_trans (some a) none (some c) h k = absurd (cc k)
earlier_trans (some a) (some b) (some c) h k = ground arith

earlier_asym : (a b : Option ℕ) → earlier a b ≡ true → earlier b a ≡ false
earlier_asym none none h = refl
earlier_asym none (some b) h = refl
earlier_asym (some a) none h = absurd (cc h)
earlier_asym (some a) (some b) h = ground arith

earlier_irrefl : (a : Option ℕ) → earlier a a ≡ false
earlier_irrefl none = refl
earlier_irrefl (some a) = ground arith

-- No event of the list comes after its first one.
abbrev Led : List Event → Type 0
Led [] = Unit
Led (e ∷ events) = All (λ f. earlier e.event_time f.event_time ≡ false) events

module _ (P : Event → Type 0) where
  All-insert :
      (e : Event) (events : List Event) → P e → All P events → All P (insert_event e events)
  unfolding insert_event
  All-insert e [] p h = (p, tt)
  All-insert e (f ∷ events) p h =
      go (earlier e.event_time f.event_time) (insert_event e events) (All-insert e events p h.1)
    where
      go :
          (b : Bool) (rest : List Event)
          → All P rest
          → All P (if b then f ∷ rest else e ∷ f ∷ events)
      go true rest hs = (h.0, hs)
      go false rest hs = (p, h)

  All-of_insert :
      (e : Event) (events : List Event) → All P (insert_event e events) → P e × All P events
  unfolding insert_event
  All-of_insert e [] h = h
  All-of_insert e (f ∷ events) h =
      go (earlier e.event_time f.event_time) (insert_event e events) (All-of_insert e events) h
    where
      go :
          (b : Bool) (rest : List Event)
          → (All P rest → P e × All P events)
          → All P (if b then f ∷ rest else e ∷ f ∷ events)
          → P e × All P (f ∷ events)
      go true rest ih (hf, hs) = let (p, h') = ih hs in (p, (hf, h'))
      go false rest ih h = h

  All-of_sort : (events : List Event) → All P (sort_by_time events) → All P events
  unfolding sort_by_time
  All-of_sort [] h = tt
  All-of_sort (e ∷ events) h =
      let (p, rest) = All-of_insert e (sort_by_time events) h in (p, All-of_sort events rest)

module _ (x : Event) where
  Among-insert :
      (e : Event) (events : List Event) → Among x (insert_event e events) → Among x (e ∷ events)
  unfolding insert_event
  Among-insert e [] h = h
  Among-insert e (f ∷ events) h =
      go (earlier e.event_time f.event_time) (insert_event e events) (Among-insert e events) h
    where
      swap : Among x (e ∷ events) → Among x (e ∷ f ∷ events)
      swap (inl p) = inl p
      swap (inr h) = inr (inr h)

      go :
          (b : Bool) (rest : List Event)
          → (Among x rest → Among x (e ∷ events))
          → Among x (if b then f ∷ rest else e ∷ f ∷ events)
          → Among x (e ∷ f ∷ events)
      go true rest ih (inl p) = inr (inl p)
      go true rest ih (inr h) = swap (ih h)
      go false rest ih h = h

  Among-sort : (events : List Event) → Among x (sort_by_time events) → Among x events
  unfolding sort_by_time
  Among-sort [] h = h
  Among-sort (e ∷ events) h = go (Among-sort events) (Among-insert e (sort_by_time events) h)
    where
      go :
          (Among x (sort_by_time events) → Among x events)
          → Among x (e ∷ sort_by_time events)
          → Among x (e ∷ events)
      go ih (inl p) = inl p
      go ih (inr m) = inr (ih m)

  Among-keep :
      (p : Event → Bool) (events : List Event)
      → Among x (keep p events)
      → Among x events × (p x ≡ true)
  Among-keep p [] h = absurd h
  Among-keep p (e ∷ events) h = go (p e) refl (Among-keep p events) h
    where
      later : Among x events × (p x ≡ true) → Among x (e ∷ events) × (p x ≡ true)
      later (m, q) = (inr m, q)

      go :
          (b : Bool)
          → p e ≡ b
          → (Among x (keep p events) → Among x events × (p x ≡ true))
          → Among x (if b then e ∷ keep p events else keep p events)
          → Among x (e ∷ events) × (p x ≡ true)
      go true b ih (inl q) = (inl q, ap p q ∙ b)
      go true b ih (inr m) = later (ih m)
      go false b ih m = later (ih m)

Led-weaken :
    (a b : Event) (events : List Event)
    → earlier a.event_time b.event_time ≡ false
    → Led (b ∷ events)
    → Led (a ∷ events)
Led-weaken a b [] h l = tt
Led-weaken a b (e ∷ events) h l =
    (earlier_trans a.event_time b.event_time e.event_time h l.0, Led-weaken a b events h l.1)

insert-Led : (e : Event) (events : List Event) → Led events → Led (insert_event e events)
unfolding insert_event
insert-Led e [] l = tt
insert-Led e (f ∷ events) l = go (earlier e.event_time f.event_time) refl
  where
    go :
        (b : Bool)
        → earlier e.event_time f.event_time ≡ b
        → Led (if b then f ∷ insert_event e events else e ∷ f ∷ events)
    go true h = All-insert _ e events (earlier_asym e.event_time f.event_time h) l
    go false h = (h, Led-weaken e f events h l)

sort-Led : (events : List Event) → Led (sort_by_time events)
unfolding sort_by_time
sort-Led [] = tt
sort-Led (e ∷ events) = insert-Led e (sort_by_time events) (sort-Led events)

leads :
    (sorted : List Event) (e : Event)
    → first sorted ≡ some e
    → Led sorted
    → Among e sorted × All (λ f. earlier e.event_time f.event_time ≡ false) sorted
leads [] e h l = absurd (cc h)
leads (f ∷ sorted) e h l =
    let same : f ≡ e = cc in
    subst
      (λ e.
        Among e (f ∷ sorted) × All (λ f. earlier e.event_time f.event_time ≡ false) (f ∷ sorted))
      same (inl refl, (earlier_irrefl f.event_time, l))

-- The event that `get_latest_upgrade_event` takes is one of those listed that have the upgrade's
-- reason, and none of these has a later time.
pub latest_of-IsLatest :
    (reason : String) (events : List Event) (e : Event)
    → latest_of reason events ≡ some e
    → IsLatest reason events e
unfolding latest_of
latest_of-IsLatest reason events e h =
    let kept = keep (λ f. has_reason reason f.reason) events in
    let (m, l) = leads (sort_by_time kept) e h (sort-Led kept) in
    let (among, of_reason) = Among-keep e _ events (Among-sort e kept m) in
    record { among = among; of_reason = of_reason; latest = All-of_sort _ kept l }
