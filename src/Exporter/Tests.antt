-- ===== src/Exporter/Tests.antt =====
-- Scrapes of a concrete io-engine.
use mayastor_extensions.Prelude.{
  ℕ, ◌+◌, ◌*◌, ◌≤◌, ◌<◌, ◌==◌, pos, ◌≡◌, ◌≢◌, refl, some, List, [], ◌∷◌, arith, length,
}
use mayastor_extensions.Effect.{good, bad}
use mayastor_extensions.Exporter.Client.{
  Engine, GrpcClient, IoStats, client_v1, get_nexus_iostat, get_pool_iostat, get_replica_iostat,
  list_pools, nexus_io_stat, ok, ticks_to_time,
}
use mayastor_extensions.Exporter.Client.Ticks.{ticks_to_time-floor}
use mayastor_extensions.Exporter.Cache.{
  new, store_nexus_stats_data, store_pool_info_data, store_pool_stats_data,
  store_replica_stats_data, store_resource_data, unwound,
}
use mayastor_extensions.Exporter.Cache.Fresh.{
  answered, holding, snapshot, store_resource_data-snapshot,
}
use mayastor_extensions.Exporter.Collector.{Env, MetricFamily, pv_name}
use mayastor_extensions.Exporter.Collector.Samples.{Accepts, first_of, sample, value_if, values_eq}
use mayastor_extensions.Exporter.Serve.{gather, metrics_handler}
use mayastor_extensions.Exporter.Serve.Scrape.{metrics_handler-answers}

abbrev stats : IoStats
stats = record {
  name = "v1";
  bytes_read = 10;
  num_read_ops = 1;
  bytes_written = 20;
  num_write_ops = 2;
  read_latency_ticks = 5000;
  write_latency_ticks = 7000;
  tick_rate = 1000;
}

abbrev engine : Engine
engine = record {
  list_pools =
      good ((record { name = "p1"; used = 1; capacity = 100; state = pos 1; committed = 2 }) ∷ []);
  get_pool_io_stats = bad "timeout";
  get_nexus_io_stats = good (stats ∷ []);
  get_replica_io_stats = good [];
}

abbrev client : GrpcClient
client = record { client = some engine }

abbrev env : Env
env = record {
  node_name = some "n1";
  accepts = λ gauge values. length values == length gauge.labels;
}

accepts : Accepts env
accepts = record { at = λ gauge values h. ground arith }

ticks_to_time-floor_example :
    (time : ℕ) × (ticks_to_time 2500 1000 ≡ ok time)
    × (time * 1000 ≤ 2500 * 1000000)
    × (2500 * 1000000 < (time + 1) * 1000)
ticks_to_time-floor_example = ticks_to_time-floor 2500 1000 (omega arith) (omega arith)

goes_on : (store_resource_data client (holding new)).0 ≢ unwound
unfolding store_resource_data store_pool_info_data store_pool_stats_data store_nexus_stats_data
    store_replica_stats_data list_pools get_pool_iostat get_nexus_iostat get_replica_iostat
    client_v1 nexus_io_stat ticks_to_time
goes_on = λ h. absurd (cc h)

store_resource_data-snapshot_example :
    (store_resource_data client (holding new)).1 ≡ holding (snapshot client)
store_resource_data-snapshot_example = store_resource_data-snapshot client new goes_on

families : List MetricFamily
unfolding gather
families = gather env (store_resource_data client (holding new)).1

scrape_run : (metrics_handler client env (holding new)).0 ≡ some families
unfolding families metrics_handler store_resource_data store_pool_info_data store_pool_stats_data
    store_nexus_stats_data store_replica_stats_data list_pools get_pool_iostat get_nexus_iostat
    get_replica_iostat client_v1 nexus_io_stat ticks_to_time
scrape_run = refl

metrics_handler-answers_example :
    (sample "diskpool_total_size_bytes" ("n1" ∷ "p1" ∷ []) families
      ≡ first_of
          (λ pool. value_if (values_eq ("n1" ∷ pool.name ∷ []) ("n1" ∷ "p1" ∷ [])) pool.capacity)
          (answered (list_pools client)))
    × (sample "volume_read_latency_us" ("n1" ∷ "p1" ∷ []) families
        ≡ first_of
            (λ stat.
              value_if
                (values_eq ("n1" ∷ pv_name stat.name ∷ []) ("n1" ∷ "p1" ∷ []))
                stat.read_latency_us)
            (answered (get_nexus_iostat client)))
metrics_handler-answers_example =
    metrics_handler-answers client env new "n1" ("n1" ∷ "p1" ∷ []) families accepts refl scrape_run
