-- ===== src/Exporter/Collector.antt =====
-- The collectors: collector of metrics-exporter/src/bin/io_engine, and `get_node_name` of main.rs.
pub mod Samples
use mayastor_extensions.Prelude.{
  ℕ, String, Bool, true, false, Option, none, some, List, [], ◌∷◌, ◌++◌, str_append, if◌then◌else◌,
}
use mayastor_extensions.Exporter.Client.{NexusIoStat, PoolInfo, PoolIoStat, ReplicaIoStat}
use mayastor_extensions.Exporter.Cache.{Cache}

-- prometheus `GaugeVec`: its full name and its labels.
pub record GaugeVec : Type 0 where
  pub fq_name : String
  pub help : String
  pub labels : List String

-- A `MetricFamily` with its one sample. The value is the integer that is cast `as f64`.
pub record MetricFamily : Type 0 where
  pub gauge : GaugeVec
  pub values : List String
  pub value : ℕ

-- The variable MY_NODE_NAME, and whether `get_metric_with_label_values` succeeds.
pub record Env : Type 0 where
  pub node_name : Option String
  pub accepts : GaugeVec → List String → Bool

abbrev init_diskpool_gauge_vec : String → String → GaugeVec
init_diskpool_gauge_vec metric_name metric_desc = record {
  fq_name = str_append "diskpool_" metric_name;
  help = metric_desc;
  labels = "node" ∷ "name" ∷ [];
}

abbrev init_volume_gauge_vec : String → String → GaugeVec
init_volume_gauge_vec metric_name metric_desc = record {
  fq_name = str_append "volume_" metric_name;
  help = metric_desc;
  labels = "node" ∷ "pv_name" ∷ [];
}

abbrev init_replica_gauge_vec : String → String → GaugeVec
init_replica_gauge_vec metric_name metric_desc = record {
  fq_name = str_append "replica_" metric_name;
  help = metric_desc;
  labels = "node" ∷ "name" ∷ "pv_name" ∷ [];
}

-- A gauge that is to be set: `get_metric_with_label_values(values)?.set(value)`.
abbrev pub Setting : Type 0
Setting = GaugeVec × List String × ℕ

-- The settings in order, up to the first that fails: what was collected before it is returned.
abbrev pub push : Env → List Setting → List MetricFamily
push env [] = []
push env ((gauge, values, value) ∷ settings) =
    let rest = push env settings in
    if env.accepts gauge values
    then (record { gauge = gauge; values = values; value = value }) ∷ rest
    else []

-- `for item in items { .. }`
abbrev pub settings_of {ℓ} : {A : Type ℓ} → (A → List Setting) → List A → List Setting
settings_of body [] = []
settings_of body (item ∷ items) = body item ++ settings_of body items

abbrev pub for_node : Env → (String → List Setting) → List MetricFamily
for_node env settings = elim env.node_name [ none ↦ [] | some node ↦ push env (settings node) ]

-- What every `collect` starts with: the lock, and the node's name.
abbrev pub collect : Env → Cache → (String → List Setting) → List MetricFamily
collect env cache settings = if cache.poisoned then [] else for_node env settings

pub record PoolCapacityCollector : Type 0 where
  pub pool_total_size : GaugeVec
  pub pool_used_size : GaugeVec
  pub pool_committed_size : GaugeVec

abbrev pub pool_capacity_collector : PoolCapacityCollector
pool_capacity_collector = record {
  pool_total_size = init_diskpool_gauge_vec "total_size_bytes" "Total size of the pool in bytes";
  pool_used_size = init_diskpool_gauge_vec "used_size_bytes" "Used size of the pool in bytes";
  pool_committed_size =
      init_diskpool_gauge_vec "committed_size_bytes" "Committed size of the pool in bytes";
}

abbrev pub pool_settings : PoolCapacityCollector → String → PoolInfo → List Setting
pool_settings c node pool =
    (c.pool_total_size, node ∷ pool.name ∷ [], pool.capacity)
    ∷ (c.pool_used_size, node ∷ pool.name ∷ [], pool.used)
    ∷ (c.pool_committed_size, node ∷ pool.name ∷ [], pool.committed)
    ∷ []

unfoldable pub collect_pool_capacity : PoolCapacityCollector → Env → Cache → List MetricFamily
collect_pool_capacity c env cache =
    collect env cache λ node. settings_of (pool_settings c node) cache.contents.pools

pub record PoolStatusCollector : Type 0 where
  pub pool_status : GaugeVec

abbrev pub pool_status_collector : PoolStatusCollector
pool_status_collector = record {
  pool_status = init_diskpool_gauge_vec "status" "Status of the pool";
}

abbrev pub status_settings : PoolStatusCollector → String → PoolInfo → List Setting
status_settings c node pool = (c.pool_status, node ∷ pool.name ∷ [], pool.state) ∷ []

unfoldable pub collect_pool_status : PoolStatusCollector → Env → Cache → List MetricFamily
collect_pool_status c env cache =
    collect env cache λ node. settings_of (status_settings c node) cache.contents.pools

pub record PoolIoStatsCollector : Type 0 where
  pub pool_bytes_read : GaugeVec
  pub pool_num_read_ops : GaugeVec
  pub pool_bytes_written : GaugeVec
  pub pool_num_write_ops : GaugeVec
  pub pool_read_latency_us : GaugeVec
  pub pool_write_latency_us : GaugeVec

abbrev pub pool_io_stats_collector : PoolIoStatsCollector
pool_io_stats_collector = record {
  pool_bytes_read = init_diskpool_gauge_vec "bytes_read" "Total bytes read on the pool";
  pool_num_read_ops =
      init_diskpool_gauge_vec "num_read_ops" "Number of read operations on the pool";
  pool_bytes_written = init_diskpool_gauge_vec "bytes_written" "Total bytes written on the pool";
  pool_num_write_ops =
      init_diskpool_gauge_vec "num_write_ops" "Number of write operations on the pool";
  pool_read_latency_us =
      init_diskpool_gauge_vec "read_latency_us" "Total read latency on the pool in usec";
  pool_write_latency_us =
      init_diskpool_gauge_vec "write_latency_us" "Total write latency on the pool in usec";
}

abbrev pub pool_stat_settings : PoolIoStatsCollector → String → PoolIoStat → List Setting
pool_stat_settings c node stat =
    (c.pool_bytes_read, node ∷ stat.name ∷ [], stat.bytes_read)
    ∷ (c.pool_num_read_ops, node ∷ stat.name ∷ [], stat.num_read_ops)
    ∷ (c.pool_bytes_written, node ∷ stat.name ∷ [], stat.bytes_written)
    ∷ (c.pool_num_write_ops, node ∷ stat.name ∷ [], stat.num_write_ops)
    ∷ (c.pool_read_latency_us, node ∷ stat.name ∷ [], stat.read_latency_us)
    ∷ (c.pool_write_latency_us, node ∷ stat.name ∷ [], stat.write_latency_us)
    ∷ []

unfoldable pub collect_pool_io_stats : PoolIoStatsCollector → Env → Cache → List MetricFamily
collect_pool_io_stats c env cache =
    collect env cache λ node. settings_of (pool_stat_settings c node) cache.contents.pool_stats

pub record NexusIoStatsCollector : Type 0 where
  pub nexus_bytes_read : GaugeVec
  pub nexus_num_read_ops : GaugeVec
  pub nexus_bytes_written : GaugeVec
  pub nexus_num_write_ops : GaugeVec
  pub nexus_read_latency_us : GaugeVec
  pub nexus_write_latency_us : GaugeVec

abbrev pub nexus_io_stats_collector : NexusIoStatsCollector
nexus_io_stats_collector = record {
  nexus_bytes_read = init_volume_gauge_vec "bytes_read" "Total bytes read from the volume";
  nexus_num_read_ops =
      init_volume_gauge_vec "num_read_ops" "Number of read operations on the volume";
  nexus_bytes_written = init_volume_gauge_vec "bytes_written" "Total bytes written on the volume";
  nexus_num_write_ops =
      init_volume_gauge_vec "num_write_ops" "Number of write operations on the volume";
  nexus_read_latency_us =
      init_volume_gauge_vec "read_latency_us" "Total read latency on the volume in usec";
  nexus_write_latency_us =
      init_volume_gauge_vec "write_latency_us" "Total write latency on the volume in usec";
}

-- The volume's name is the nexus' with this prefix.
abbrev pub pv_name : String → String
pv_name id = str_append "pvc-" id

abbrev pub nexus_stat_settings : NexusIoStatsCollector → String → NexusIoStat → List Setting
nexus_stat_settings c node stat =
    (c.nexus_bytes_read, node ∷ pv_name stat.name ∷ [], stat.bytes_read)
    ∷ (c.nexus_num_read_ops, node ∷ pv_name stat.name ∷ [], stat.num_read_ops)
    ∷ (c.nexus_bytes_written, node ∷ pv_name stat.name ∷ [], stat.bytes_written)
    ∷ (c.nexus_num_write_ops, node ∷ pv_name stat.name ∷ [], stat.num_write_ops)
    ∷ (c.nexus_read_latency_us, node ∷ pv_name stat.name ∷ [], stat.read_latency_us)
    ∷ (c.nexus_write_latency_us, node ∷ pv_name stat.name ∷ [], stat.write_latency_us)
    ∷ []

unfoldable pub collect_nexus_io_stats : NexusIoStatsCollector → Env → Cache → List MetricFamily
collect_nexus_io_stats c env cache =
    collect env cache λ node. settings_of (nexus_stat_settings c node) cache.contents.nexus_stats

pub record ReplicaIoStatsCollector : Type 0 where
  pub replica_bytes_read : GaugeVec
  pub replica_num_read_ops : GaugeVec
  pub replica_bytes_written : GaugeVec
  pub replica_num_write_ops : GaugeVec
  pub replica_read_latency_us : GaugeVec
  pub replica_write_latency_us : GaugeVec

abbrev pub replica_io_stats_collector : ReplicaIoStatsCollector
replica_io_stats_collector = record {
  replica_bytes_read = init_replica_gauge_vec "bytes_read" "Total bytes read on the replica";
  replica_num_read_ops =
      init_replica_gauge_vec "num_read_ops" "Number of read operations on the replica";
  replica_bytes_written =
      init_replica_gauge_vec "bytes_written" "Total bytes written on the replica";
  replica_num_write_ops =
      init_replica_gauge_vec "num_write_ops" "Number of write operations on the replica";
  replica_read_latency_us =
      init_replica_gauge_vec "read_latency_us" "Total read latency on the replica in usec";
  replica_write_latency_us =
      init_replica_gauge_vec "write_latency_us" "Total write latency on the replica in usec";
}

abbrev replica_values : String → ReplicaIoStat → List String
replica_values node stat = node ∷ stat.name ∷ pv_name stat.entity_id ∷ []

abbrev pub replica_stat_settings : ReplicaIoStatsCollector → String → ReplicaIoStat → List Setting
replica_stat_settings c node stat =
    (c.replica_bytes_read, replica_values node stat, stat.bytes_read)
    ∷ (c.replica_num_read_ops, replica_values node stat, stat.num_read_ops)
    ∷ (c.replica_bytes_written, replica_values node stat, stat.bytes_written)
    ∷ (c.replica_num_write_ops, replica_values node stat, stat.num_write_ops)
    ∷ (c.replica_read_latency_us, replica_values node stat, stat.read_latency_us)
    ∷ (c.replica_write_latency_us, replica_values node stat, stat.write_latency_us)
    ∷ []

unfoldable pub collect_replica_io_stats : ReplicaIoStatsCollector → Env → Cache → List MetricFamily
collect_replica_io_stats c env cache =
    collect env cache
      λ node. settings_of (replica_stat_settings c node) cache.contents.replica_stats
