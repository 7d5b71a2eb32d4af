-- ===== src/Exporter/Client.antt =====
-- The gRPC client of the exporter: client and error.rs of metrics-exporter/src/bin/io_engine. The
-- answers of the io-engine are a record.
pub mod Ticks
use mayastor_extensions.Prelude.{
  ℕ, zero, suc, ◌+◌, ◌*◌, ◌/◌, ◌%◌, ◌-◌, ◌^◌, ℤ, pos, negsuc, String, Bool, Option, none, some,
  List, [], ◌∷◌, ◌==◌, map, if◌then◌else◌,
}
use mayastor_extensions.Effect.{Reply, good, bad}

pub data ExporterError : Type 0 where
  grpc_response_error get_node_error invalid_uri pod_ip_error : String → ExporterError
  grpc_client_error http_server_error http_bind_error : String → ExporterError

-- A `Result`, or a panic.
pub data Answer (A : Type 0) : Type 0 where
  ok : A → Answer A
  err : ExporterError → Answer A
  panicked : Answer A

infixl 10 ◌>>=◌
abbrev pub ◌>>=◌ : {A B : Type 0} → Answer A → (A → Answer B) → Answer B
ok a >>= f = f a
err e >>= f = err e
panicked >>= f = panicked

-- rpc::v1: `pool::Pool`, `stats::IoStats` and `stats::ReplicaIoStats`
pub record RpcPool : Type 0 where
  pub name : String
  pub used : ℕ
  pub capacity : ℕ
  pub state : ℤ
  pub committed : ℕ

pub record IoStats : Type 0 where
  pub name : String
  pub bytes_read : ℕ
  pub num_read_ops : ℕ
  pub bytes_written : ℕ
  pub num_write_ops : ℕ
  pub read_latency_ticks : ℕ
  pub write_latency_ticks : ℕ
  pub tick_rate : ℕ

pub record RpcReplica : Type 0 where
  pub entity_id : Option String
  pub stats : Option IoStats

-- What the io-engine answers to each request.
pub record Engine : Type 0 where
  pub list_pools : Reply (List RpcPool)
  pub get_pool_io_stats : Reply (List IoStats)
  pub get_nexus_io_stats : Reply (List IoStats)
  pub get_replica_io_stats : Reply (List RpcReplica)

pub record GrpcClient : Type 0 where
  pub client : Option Engine

pub record PoolInfo : Type 0 where
  pub name : String
  pub used : ℕ
  pub capacity : ℕ
  pub state : ℕ
  pub committed : ℕ

pub record PoolIoStat : Type 0 where
  pub name : String
  pub bytes_read : ℕ
  pub num_read_ops : ℕ
  pub bytes_written : ℕ
  pub num_write_ops : ℕ
  pub read_latency_us : ℕ
  pub write_latency_us : ℕ

pub record NexusIoStat : Type 0 where
  pub name : String
  pub bytes_read : ℕ
  pub num_read_ops : ℕ
  pub bytes_written : ℕ
  pub num_write_ops : ℕ
  pub read_latency_us : ℕ
  pub write_latency_us : ℕ

pub record ReplicaIoStat : Type 0 where
  pub name : String
  pub entity_id : String
  pub bytes_read : ℕ
  pub num_read_ops : ℕ
  pub bytes_written : ℕ
  pub num_write_ops : ℕ
  pub read_latency_us : ℕ
  pub write_latency_us : ℕ

-- `as u64`
abbrev as_u64 : ℤ → ℕ
as_u64 (pos n) = n % 2 ^ 64
as_u64 (negsuc n) = 2 ^ 64 - suc (n % 2 ^ 64)

unfoldable pub pool_info : RpcPool → PoolInfo
pool_info value = record {
  name = value.name;
  used = value.used;
  capacity = value.capacity;
  state = as_u64 value.state;
  committed = value.committed;
}

-- `((tick as u128 * 1000000) / tick_rate as u128) as u64`; a division by 0 panics.
unfoldable pub ticks_to_time : ℕ → ℕ → Answer ℕ
ticks_to_time tick tick_rate =
    if tick_rate == 0 then panicked else ok (tick * 1000000 / tick_rate % 2 ^ 64)

unfoldable pub pool_io_stat : IoStats → Answer PoolIoStat
pool_io_stat value = do
  read_latency_us ← ticks_to_time value.read_latency_ticks value.tick_rate
  write_latency_us ← ticks_to_time value.write_latency_ticks value.tick_rate
  ok (record {
    name = value.name;
    bytes_read = value.bytes_read;
    num_read_ops = value.num_read_ops;
    bytes_written = value.bytes_written;
    num_write_ops = value.num_write_ops;
    read_latency_us = read_latency_us;
    write_latency_us = write_latency_us;
  })

unfoldable pub nexus_io_stat : IoStats → Answer NexusIoStat
nexus_io_stat value = do
  read_latency_us ← ticks_to_time value.read_latency_ticks value.tick_rate
  write_latency_us ← ticks_to_time value.write_latency_ticks value.tick_rate
  ok (record {
    name = value.name;
    bytes_read = value.bytes_read;
    num_read_ops = value.num_read_ops;
    bytes_written = value.bytes_written;
    num_write_ops = value.num_write_ops;
    read_latency_us = read_latency_us;
    write_latency_us = write_latency_us;
  })

abbrev pub ok_or : {A : Type 0} → Option A → ExporterError → Answer A
ok_or none e = err e
ok_or (some a) e = ok a

unfoldable pub replica_io_stat : RpcReplica → Answer ReplicaIoStat
replica_io_stat value = do
  stats ← ok_or value.stats (grpc_response_error "Stats is None for replica stats")
  id ← ok_or value.entity_id (grpc_response_error "entity_id is not set for replica stat")
  read_latency_us ← ticks_to_time stats.read_latency_ticks stats.tick_rate
  write_latency_us ← ticks_to_time stats.write_latency_ticks stats.tick_rate
  ok (record {
    name = stats.name;
    entity_id = id;
    bytes_read = stats.bytes_read;
    num_read_ops = stats.num_read_ops;
    bytes_written = stats.bytes_written;
    num_write_ops = stats.num_write_ops;
    read_latency_us = read_latency_us;
    write_latency_us = write_latency_us;
  })

-- `into_iter().map(..).collect()`, where the function may panic.
abbrev pub collect : {A B : Type 0} → (A → Answer B) → List A → Answer (List B)
collect f [] = ok []
collect f (x ∷ xs) = f x >>= λ y. collect f xs >>= λ ys. ok (y ∷ ys)

abbrev skip_err : {B : Type 0} → Answer B → Answer (List B) → Answer (List B)
skip_err (ok y) rest = rest >>= λ ys. ok (y ∷ ys)
skip_err (err e) rest = rest
skip_err panicked rest = panicked

-- `into_iter().filter_map(|x| f(x).ok()).collect()`
abbrev collect_ok : {A B : Type 0} → (A → Answer B) → List A → Answer (List B)
collect_ok f [] = ok []
collect_ok f (x ∷ xs) = skip_err (f x) (collect_ok f xs)

unfoldable pub client_v1 : GrpcClient → Answer Engine
client_v1 c = ok_or c.client (grpc_client_error "Could not get v1 client")

abbrev pub response : {A : Type 0} → Reply A → Answer A
response (good a) = ok a
response (bad error) = err (grpc_response_error error)

unfoldable pub list_pools : GrpcClient → Answer (List PoolInfo)
list_pools c = do client ← client_v1 c; pools ← response client.list_pools; ok (map pool_info pools)

unfoldable pub get_pool_iostat : GrpcClient → Answer (List PoolIoStat)
get_pool_iostat c = do
  client ← client_v1 c
  stats ← response client.get_pool_io_stats
  collect pool_io_stat stats

unfoldable pub get_nexus_iostat : GrpcClient → Answer (List NexusIoStat)
get_nexus_iostat c = do
  client ← client_v1 c
  stats ← response client.get_nexus_io_stats
  collect nexus_io_stat stats

unfoldable pub get_replica_iostat : GrpcClient → Answer (List ReplicaIoStat)
get_replica_iostat c = do
  client ← client_v1 c
  stats ← response client.get_replica_io_stats
  collect_ok replica_io_stat stats
