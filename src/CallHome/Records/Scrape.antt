-- ===== src/CallHome/Records/Scrape.antt =====
-- From the counters, through a scrape, to the report.
use mayastor_extensions.Prelude.{◌≡◌, refl, none, List, [], ◌∷◌, arith}
use mayastor_extensions.CallHome.Stats.{EventSet, Sample, collect}
use mayastor_extensions.CallHome.Stats.Counts.{
  InRange, pool_created, pool_deleted, volume_created, volume_deleted,
}
use mayastor_extensions.CallHome.Records.{
  Action, event_data, find_counter, nexus, resource_from, try_counter,
}

-- From counters below 2^32 on: the report's volume and pool counters are those of the cache that was
-- scraped.
pub event_data-collect :
    (e : EventSet)
    → InRange e
    → let d = event_data (collect e) in
      (d.volume_created ≡ e.volume.volume_created)
      × (d.volume_deleted ≡ e.volume.volume_deleted)
      × (d.pool_created ≡ e.pool.pool_created)
      × (d.pool_deleted ≡ e.pool.pool_deleted)
unfolding event_data find_counter collect
event_data-collect e h = (
  ground (arith, h volume_created),
  ground (arith, h volume_deleted),
  ground (arith, h pool_created),
  ground (arith, h pool_deleted),
)

try_counter-nexus : (s : Sample) (a : Action) → try_counter s nexus a ≡ none
unfolding try_counter resource_from
try_counter-nexus s a = ground arith

-- No sample is ever taken for a counter of the nexus.
find_counter-nexus : (ss : List Sample) (a : Action) → find_counter ss nexus a ≡ none
unfolding find_counter
find_counter-nexus [] a = refl
find_counter-nexus (s ∷ ss) a = rw (try_counter-nexus s a) (find_counter-nexus ss a)

-- Whatever the scrape holds, the report's four nexus and rebuild counters are 0.
pub event_data-nexus :
    (samples : List Sample)
    → let d = event_data samples in
      (d.nexus_created ≡ 0)
      × (d.nexus_deleted ≡ 0)
      × (d.rebuild_started ≡ 0)
      × (d.rebuild_ended ≡ 0)
unfolding event_data
event_data-nexus samples = (
  simp (find_counter-nexus samples) refl,
  simp (find_counter-nexus samples) refl,
  simp (find_counter-nexus samples) refl,
  simp (find_counter-nexus samples) refl,
)
