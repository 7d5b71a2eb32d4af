-- ===== src/CallHome/Stats/Counts.antt =====
-- What the counters count.
use mayastor_extensions.Prelude.{
  ℕ, ◌+◌, ◌%◌, ◌^◌, ◌<◌, ◌≡◌, Bool, true, false, List, [], ◌∷◌, count_if, arith, if◌then◌else◌,
}
use mayastor_extensions.CallHome.Stats.{
  EventAction, EventCategory, EventMessage, EventSet, create, delete, inc_counter, nexus, pool,
  rebuild_begin, rebuild_end, store_events, volume,
}

-- The eight counters, and the messages that each of them is for.
pub data Counter : Type 0 where
  pool_created pool_deleted volume_created volume_deleted : Counter
  nexus_created nexus_deleted rebuild_started rebuild_ended : Counter

abbrev pub read : Counter → EventSet → ℕ
read pool_created e = e.pool.pool_created
read pool_deleted e = e.pool.pool_deleted
read volume_created e = e.volume.volume_created
read volume_deleted e = e.volume.volume_deleted
read nexus_created e = e.nexus.nexus_created
read nexus_deleted e = e.nexus.nexus_deleted
read rebuild_started e = e.nexus.rebuild_started
read rebuild_ended e = e.nexus.rebuild_ended

abbrev is_for : Counter → EventCategory → EventAction → Bool
is_for pool_created pool create = true
is_for pool_deleted pool delete = true
is_for volume_created volume create = true
is_for volume_deleted volume delete = true
is_for nexus_created nexus create = true
is_for nexus_deleted nexus delete = true
is_for rebuild_started nexus rebuild_begin = true
is_for rebuild_ended nexus rebuild_end = true
is_for _ _ _ = false

abbrev pub counts : Counter → EventMessage → Bool
counts c m = is_for c m.category m.action

-- Every counter is a `u32`.
abbrev pub InRange : EventSet → Type 0
InRange e = (c : Counter) → read c e < 2 ^ 32

inc_counter-read :
    (c : Counter) (k : EventCategory) (a : EventAction) (e : EventSet)
    → read c (inc_counter k a e) ≡ (if is_for c k a then (read c e + 1) % 2 ^ 32 else read c e)
unfolding inc_counter
inc_counter-read c k a e = ground arith

inc_counter-InRange :
    (k : EventCategory) (a : EventAction) (e : EventSet) → InRange e → InRange (inc_counter k a e)
inc_counter-InRange k a e h c = ground (arith, inc_counter-read c k a e, h c)

store_events-InRange :
    (c : Counter) (ms : List EventMessage) (e : EventSet)
    → InRange e
    → read c (store_events ms e) < 2 ^ 32
unfolding store_events
store_events-InRange c [] e h = h c
store_events-InRange c (m ∷ ms) e h =
    store_events-InRange c ms (inc_counter m.category m.action e)
      (inc_counter-InRange m.category m.action e h)

-- From counters below 2^32 on, each counter stands at its first value and the number of messages for
-- it, modulo 2^32, whatever other messages come between them.
pub store_events-counts :
    (c : Counter) (ms : List EventMessage) (e : EventSet)
    → InRange e
    → read c (store_events ms e) ≡ (read c e + count_if (counts c) ms) % 2 ^ 32
unfolding store_events
store_events-counts c [] e h = omega (arith, h c)
store_events-counts c (m ∷ ms) e h = ground (
  arith,
  inc_counter-read c m.category m.action e,
  store_events-counts c ms (inc_counter m.category m.action e)
      (inc_counter-InRange m.category m.action e h),
)
