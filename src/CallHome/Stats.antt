-- ===== src/CallHome/Stats.antt =====
-- The counters of call-home/src/bin/stats/cache, and what stats/exporter/events_collector.rs hands out
-- of them. A scrape makes a new collector (`metrics_handlers` of stats/main.rs), so its counters start
-- from 0.
pub mod Counts
use mayastor_extensions.Prelude.{
  ℕ, suc, ◌+◌, ◌%◌, ◌^◌, ◌≡◌, refl, String, Bool, true, false, List, [], ◌∷◌, ◌++◌, count_if, arith,
  if◌then◌else◌,
}

-- `events_api::event::EventCategory` and `EventAction`; `other` stands for the values that the cache
-- does not look at.
pub data EventCategory : Type 0 where
  pool volume nexus other_category : EventCategory

pub data EventAction : Type 0 where
  create delete rebuild_begin rebuild_end other_action : EventAction

pub record EventMessage : Type 0 where
  pub category : EventCategory
  pub action : EventAction

pub record Pool : Type 0 where
  pub pool_created : ℕ
  pub pool_deleted : ℕ

pub record Volume : Type 0 where
  pub volume_created : ℕ
  pub volume_deleted : ℕ

pub record Nexus : Type 0 where
  pub nexus_created : ℕ
  pub nexus_deleted : ℕ
  pub rebuild_started : ℕ
  pub rebuild_ended : ℕ

pub record EventSet : Type 0 where
  pub pool : Pool
  pub volume : Volume
  pub nexus : Nexus

-- `+= 1` on a `u32`, which wraps in a release build
abbrev bump : ℕ → ℕ
bump n = (n + 1) % 2 ^ 32

-- `StatsCounter::update_counter` of each of them
unfoldable update_pool : EventAction → Pool → Pool
update_pool create p = record p { pool_created = bump p.pool_created }
update_pool delete p = record p { pool_deleted = bump p.pool_deleted }
update_pool _ p = p

unfoldable update_volume : EventAction → Volume → Volume
update_volume create v = record v { volume_created = bump v.volume_created }
update_volume delete v = record v { volume_deleted = bump v.volume_deleted }
update_volume _ v = v

unfoldable update_nexus : EventAction → Nexus → Nexus
update_nexus create n = record n { nexus_created = bump n.nexus_created }
update_nexus delete n = record n { nexus_deleted = bump n.nexus_deleted }
update_nexus rebuild_begin n = record n { rebuild_started = bump n.rebuild_started }
update_nexus rebuild_end n = record n { rebuild_ended = bump n.rebuild_ended }
update_nexus _ n = n

unfoldable pub inc_counter : EventCategory → EventAction → EventSet → EventSet
unfolding update_pool update_volume update_nexus
inc_counter pool action events = record events { pool = update_pool action events.pool }
inc_counter volume action events = record events { volume = update_volume action events.volume }
inc_counter nexus action events = record events { nexus = update_nexus action events.nexus }
inc_counter _ action events = events

-- The messages of the subscription, in the order in which they come.
unfoldable pub store_events : List EventMessage → EventSet → EventSet
store_events [] events = events
store_events (m ∷ ms) events = store_events ms (inc_counter m.category m.action events)

-- `EventSet::default`
abbrev pub default : EventSet
default = record {
  pool = record { pool_created = 0; pool_deleted = 0 };
  volume = record { volume_created = 0; volume_deleted = 0 };
  nexus = record { nexus_created = 0; nexus_deleted = 0; rebuild_started = 0; rebuild_ended = 0 };
}

-- A sample of a scrape: the metric, its label `action`, and the counter. Both ends of the scrape are
-- the prometheus crates.
pub record Sample : Type 0 where
  pub metric : String
  pub action : String
  pub value : ℕ

abbrev sample : String → String → ℕ → Sample
sample metric action value = record { metric = metric; action = action; value = value }

unfoldable volume_metrics : EventSet → List Sample
volume_metrics e =
    sample "volume" "created" e.volume.volume_created
    ∷ sample "volume" "deleted" e.volume.volume_deleted
    ∷ []

unfoldable pool_metrics : EventSet → List Sample
pool_metrics e =
    sample "pool" "created" e.pool.pool_created ∷ sample "pool" "deleted" e.pool.pool_deleted ∷ []

unfoldable nexus_metrics : EventSet → List Sample
nexus_metrics e =
    sample "nexus" "created" e.nexus.nexus_created
    ∷ sample "nexus" "deleted" e.nexus.nexus_deleted
    ∷ sample "nexus" "rebuild_started" e.nexus.rebuild_started
    ∷ sample "nexus" "rebuild_ended" e.nexus.rebuild_ended
    ∷ []

unfoldable pub collect : EventSet → List Sample
unfolding volume_metrics pool_metrics nexus_metrics
collect e = volume_metrics e ++ (pool_metrics e ++ nexus_metrics e)
