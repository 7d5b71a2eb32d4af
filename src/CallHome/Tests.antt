-- ===== src/CallHome/Tests.antt =====
-- The call-home programs on concrete input.
use mayastor_extensions.Prelude.{ℕ, ◌+◌, ◌≤◌, ◌≡◌, refl, String, none, List, [], ◌∷◌, arith, length}
use mayastor_extensions.Upgrade.Models.{Volume, VolumeStatus, degraded, online}
use mayastor_extensions.CallHome.Stats.{
  EventAction, EventCategory, EventMessage, EventSet, collect, create, default, delete, nexus, pool,
  store_events,
}
use mayastor_extensions.CallHome.Stats.Counts.{InRange, pool_created, store_events-counts}
use mayastor_extensions.CallHome.Records.{event_data}
use mayastor_extensions.CallHome.Records.Scrape.{event_data-collect, event_data-nexus}
use mayastor_extensions.CallHome.Volumes.{
  get_max_value, get_min_value, replica_counts, state_counts,
}
use mayastor_extensions.CallHome.Volumes.Totals.{replica_counts-total, state_counts-total}
use mayastor_extensions.CallHome.Media.{BlockDevice, storage_media}
use mayastor_extensions.CallHome.Media.Sums.{capacity, counted, storage_media-shared}
use mayastor_extensions.CallHome.Logs.{log_with_limit, log_with_limit-newest}

abbrev message : EventCategory → EventAction → EventMessage
message c a = record { category = c; action = a }

abbrev messages : List EventMessage
messages =
    message pool create ∷ message nexus create ∷ message pool delete ∷ message pool create ∷ []

default-InRange : InRange default
default-InRange c = ground arith

store_events-counts_example : (store_events messages default).pool.pool_created ≡ 2
store_events-counts_example = store_events-counts pool_created messages default default-InRange

event_data-collect_example :
    let d = event_data (collect default) in
    (d.volume_created ≡ 0) × (d.volume_deleted ≡ 0) × (d.pool_created ≡ 0) × (d.pool_deleted ≡ 0)
event_data-collect_example = event_data-collect default default-InRange

-- A nexus was created, the exporter says so, and the report does not.
abbrev one_nexus : EventSet
one_nexus = record default {
  nexus = record { nexus_created = 1; nexus_deleted = 0; rebuild_started = 0; rebuild_ended = 0 };
}

event_data-nexus_example :
    let d = event_data (collect one_nexus) in
    (d.nexus_created ≡ 0) × (d.nexus_deleted ≡ 0) × (d.rebuild_started ≡ 0) × (d.rebuild_ended ≡ 0)
event_data-nexus_example = event_data-nexus (collect one_nexus)

abbrev volume : VolumeStatus → ℕ → Volume
volume status replicas = record {
  spec = record { uuid = "v"; size = 10; num_replicas = replicas; target = none };
  state = record { status = status; target = none; replica_topology = [] };
}

abbrev two : List Volume
two = volume online 3 ∷ volume degraded 7 ∷ []

state_counts-total_example :
    let c = state_counts two in c.unknown + c.online + c.degraded + c.faulted + c.shutdown ≡ 2
state_counts-total_example = state_counts-total two

replica_counts-total_example :
    let c = replica_counts two in
    c.one_replica + c.two_replicas + c.three_replicas + c.four_replicas + c.five_or_more_replicas
    ≡ 2
replica_counts-total_example = replica_counts-total two (omega arith)

extreme_values :
    (get_max_value (5 ∷ 9 ∷ 2 ∷ []) ≡ 9)
    × (get_min_value (5 ∷ 9 ∷ 2 ∷ []) ≡ 2)
    × (get_max_value [] ≡ 0)
    × (get_min_value [] ≡ 0)
unfolding get_max_value get_min_value
extreme_values = (refl, refl, refl, refl)

abbrev disk : String → ℕ → BlockDevice
disk name size = record {
  devname = name;
  size = size;
  connection_type = "nvme";
  is_rotational = none;
}

abbrev disks : List BlockDevice
disks = disk "/dev/nvme0n1" 100 ∷ disk "/dev/loop0" 8 ∷ disk "/dev/nvme1n1" 50 ∷ []

storage_media-shared_example :
    let m = storage_media disks in
    (counted m.types ≡ m.count)
    × (capacity m.types ≡ m.total_capacity_in_bytes)
    × (m.total_capacity_in_bytes ≡ 80896)
storage_media-shared_example = storage_media-shared disks (omega arith) (omega arith)

log_with_limit-newest_example :
    let result = log_with_limit {A = String} ("a" ∷ "b" ∷ "c" ∷ []) "d" 2 in
    (result ≡ "c" ∷ "d" ∷ []) × (length result ≤ 2)
log_with_limit-newest_example =
    log_with_limit-newest {A = String} ("a" ∷ "b" ∷ "c" ∷ []) "d" 2 (omega arith)
