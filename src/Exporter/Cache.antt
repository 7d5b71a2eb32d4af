-- ===== src/Exporter/Cache.antt =====
-- The exporter's cache: cache of metrics-exporter/src/bin/io_engine.
pub mod Fresh
use mayastor_extensions.Prelude.{Bool, true, false, List, [], if◌then◌else◌}
use mayastor_extensions.Exporter.Client.{
  Answer, GrpcClient, NexusIoStat, PoolInfo, PoolIoStat, ReplicaIoStat, err, get_nexus_iostat,
  get_pool_iostat, get_replica_iostat, list_pools, ok, panicked,
}

pub record Data : Type 0 where
  pub pools : List PoolInfo
  pub pool_stats : List PoolIoStat
  pub nexus_stats : List NexusIoStat
  pub replica_stats : List ReplicaIoStat

-- `CACHE`, with its field `data`: the mutex is poisoned when a thread panicked while it held it.
pub record Cache : Type 0 where
  pub poisoned : Bool
  pub contents : Data

-- `Data::new`
abbrev pub new : Data
new = record { pools = []; pool_stats = []; nexus_stats = []; replica_stats = [] }

-- How a store ended: `Ok(())`, `Err(())`, or with the panic of the client's call.
pub data Stored : Type 0 where
  stored refused unwound : Stored

-- A value is set, an error invalidates; the lock is taken after the client has answered.
abbrev locked : Bool → Stored → Data → Cache → Stored × Cache
locked true result contents cache = (refused, cache)
locked false result contents cache = (result, record cache { contents = contents })

abbrev pub store : {A : Type 0} → Answer (List A) → (List A → Data) → Cache → Stored × Cache
store (ok val) set cache = locked cache.poisoned stored (set val) cache
store (err error) set cache = locked cache.poisoned refused (set []) cache
store panicked set cache = (unwound, cache)

unfoldable pub store_pool_info_data : GrpcClient → Cache → Stored × Cache
store_pool_info_data client cache =
    store (list_pools client) (λ val. record cache.contents { pools = val }) cache

unfoldable pub store_pool_stats_data : GrpcClient → Cache → Stored × Cache
store_pool_stats_data client cache =
    store (get_pool_iostat client) (λ val. record cache.contents { pool_stats = val }) cache

unfoldable pub store_nexus_stats_data : GrpcClient → Cache → Stored × Cache
store_nexus_stats_data client cache =
    store (get_nexus_iostat client) (λ val. record cache.contents { nexus_stats = val }) cache

unfoldable pub store_replica_stats_data : GrpcClient → Cache → Stored × Cache
store_replica_stats_data client cache =
    store (get_replica_iostat client) (λ val. record cache.contents { replica_stats = val }) cache

-- `let _ = first.await; next.await`
abbrev pub after : Stored × Cache → (Cache → Stored × Cache) → Stored × Cache
after (stored, cache) next = next cache
after (refused, cache) next = next cache
after (unwound, cache) next = (unwound, cache)

unfoldable pub store_resource_data : GrpcClient → Cache → Stored × Cache
store_resource_data client cache =
    after
      (after (after (store_pool_info_data client cache) (store_pool_stats_data client))
        (store_nexus_stats_data client))
      (store_replica_stats_data client)
