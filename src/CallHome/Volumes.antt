-- ===== src/CallHome/Volumes.antt =====
-- The numbers on volumes and pools in call-home/src/bin/callhome/collector/report_models.rs, but for the
-- mean and the percentiles, which are computed in floating point.
pub mod Totals
use mayastor_extensions.Prelude.{
  ℕ, ◌+◌, ◌%◌, ◌^◌, Bool, true, false, Option, none, some, String, List, [], ◌∷◌, count_if, keep,
  length, leb, ltb, ◌==◌, map, str_eq, if◌then◌else◌,
}
use mayastor_extensions.Upgrade.Models.{
  Volume, VolumeStatus, degraded, faulted, online, shutdown, unknown,
}

pub record VolumeReplicaCounts : Type 0 where
  pub one_replica : ℕ
  pub two_replicas : ℕ
  pub three_replicas : ℕ
  pub four_replicas : ℕ
  pub five_or_more_replicas : ℕ

-- `count() as u32`
abbrev count_u32 : (Volume → Bool) → List Volume → ℕ
count_u32 p volumes = count_if p volumes % 2 ^ 32

-- `VolumeReplicaCounts::new`
unfoldable pub replica_counts : List Volume → VolumeReplicaCounts
replica_counts volumes = record {
  one_replica = count_u32 (λ v. v.spec.num_replicas == 1) volumes;
  two_replicas = count_u32 (λ v. v.spec.num_replicas == 2) volumes;
  three_replicas = count_u32 (λ v. v.spec.num_replicas == 3) volumes;
  four_replicas = count_u32 (λ v. v.spec.num_replicas == 4) volumes;
  five_or_more_replicas = count_u32 (λ v. leb 5 v.spec.num_replicas) volumes;
}

pub record VolumeStateCounts : Type 0 where
  pub unknown : ℕ
  pub online : ℕ
  pub degraded : ℕ
  pub faulted : ℕ
  pub shutdown : ℕ

abbrev pub status_eq : VolumeStatus → VolumeStatus → Bool
status_eq unknown unknown = true
status_eq online online = true
status_eq degraded degraded = true
status_eq faulted faulted = true
status_eq shutdown shutdown = true
status_eq _ _ = false

abbrev in_state : VolumeStatus → Volume → Bool
in_state status v = status_eq v.state.status status

-- `VolumeStateCounts::new`
unfoldable pub state_counts : List Volume → VolumeStateCounts
state_counts volumes = record {
  unknown = count_if (in_state unknown) volumes;
  online = count_if (in_state online) volumes;
  degraded = count_if (in_state degraded) volumes;
  faulted = count_if (in_state faulted) volumes;
  shutdown = count_if (in_state shutdown) volumes;
}

unfoldable get_volumes_size_vector : List Volume → List ℕ
get_volumes_size_vector volumes = map (λ v. v.spec.size) volumes

abbrev greater : ℕ → ℕ → ℕ
greater a b = if leb a b then b else a

abbrev lesser : ℕ → ℕ → ℕ
lesser a b = if leb a b then a else b

fold_max : ℕ → List ℕ → ℕ
fold_max best [] = best
fold_max best (x ∷ xs) = fold_max (greater best x) xs

fold_min : ℕ → List ℕ → ℕ
fold_min best [] = best
fold_min best (x ∷ xs) = fold_min (lesser best x) xs

-- `max().unwrap_or_default()`
unfoldable pub get_max_value : List ℕ → ℕ
unfolding fold_max
get_max_value [] = 0
get_max_value (x ∷ xs) = fold_max x xs

-- `min().unwrap_or_default()`
unfoldable pub get_min_value : List ℕ → ℕ
unfolding fold_min
get_min_value [] = 0
get_min_value (x ∷ xs) = fold_min x xs

-- openapi `Pool`, `Replica`
pub record PoolState : Type 0 where
  pub capacity : ℕ

pub record Pool : Type 0 where
  pub state : Option PoolState

abbrev capacity_of : Option PoolState → List ℕ → List ℕ
capacity_of none rest = rest
capacity_of (some state) rest = state.capacity ∷ rest

unfoldable get_pools_size_vector : List Pool → List ℕ
get_pools_size_vector [] = []
get_pools_size_vector (pool ∷ pools) = capacity_of pool.state (get_pools_size_vector pools)

-- `iter().sum()` of `u64`, which wraps in a release build
unfoldable pub sum_u64 : List ℕ → ℕ
sum_u64 [] = 0
sum_u64 (x ∷ xs) = (x + sum_u64 xs) % 2 ^ 64

pub record Replica : Type 0 where
  pub pool : String
  pub size : ℕ

pub record PoolInfo : Type 0 where
  pub replicas : ℕ
  pub replicas_capacity_in_bytes : ℕ

-- `PoolInfo::new`
unfoldable pool_info : String → List Replica → PoolInfo
unfolding sum_u64
pool_info pool_id replicas =
    let pool_replicas = keep (λ r. str_eq r.pool pool_id) replicas in
    record {
      replicas = length pool_replicas;
      replicas_capacity_in_bytes = sum_u64 (map (λ r. r.size) pool_replicas);
    }
