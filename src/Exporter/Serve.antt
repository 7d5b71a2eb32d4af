-- ===== src/Exporter/Serve.antt =====
-- `metrics_handler` of metrics-exporter/src/bin/io_engine/serve/handler.rs. The registry's order and
-- the encoding of the families as text are not modelled.
pub mod Scrape
use mayastor_extensions.Prelude.{Option, none, some, List, ◌++◌}
use mayastor_extensions.Exporter.Client.{GrpcClient}
use mayastor_extensions.Exporter.Cache.{
  Cache, Stored, refused, store_resource_data, stored, unwound,
}
use mayastor_extensions.Exporter.Collector.{
  Env, MetricFamily, collect_nexus_io_stats, collect_pool_capacity, collect_pool_io_stats,
  collect_pool_status, collect_replica_io_stats, nexus_io_stats_collector, pool_capacity_collector,
  pool_io_stats_collector, pool_status_collector, replica_io_stats_collector,
}

-- What the registered collectors collect, in the order of registration.
unfoldable pub gather : Env → Cache → List MetricFamily
gather env cache =
    collect_pool_capacity pool_capacity_collector env cache
    ++ collect_pool_status pool_status_collector env cache
    ++ collect_pool_io_stats pool_io_stats_collector env cache
    ++ collect_nexus_io_stats nexus_io_stats_collector env cache
    ++ collect_replica_io_stats replica_io_stats_collector env cache

-- No response when the client's call panics.
abbrev pub respond : Env → Stored → Cache → Option (List MetricFamily)
respond env stored cache = some (gather env cache)
respond env refused cache = some (gather env cache)
respond env unwound cache = none

unfoldable pub metrics_handler : GrpcClient → Env → Cache → Option (List MetricFamily) × Cache
metrics_handler grpc_client env cache =
    let (result, cache') = store_resource_data grpc_client cache in
    (respond env result cache', cache')
