-- ===== src/CallHome/Volumes/Totals.antt =====
-- The counts add up.
use mayastor_extensions.Prelude.{
  ◌+◌, ◌^◌, ◌<◌, ◌≡◌, refl, List, [], ◌∷◌, arith, count_if, length, leb, ltb, ◌==◌, count_if-le,
}
use mayastor_extensions.Upgrade.Models.{Volume}
use mayastor_extensions.CallHome.Volumes.{replica_counts, state_counts}

-- Every volume is counted under exactly one state: the five counts add up to the number of volumes.
pub state_counts-total :
    (volumes : List Volume)
    → let c = state_counts volumes in
      c.unknown + c.online + c.degraded + c.faulted + c.shutdown ≡ length volumes
unfolding state_counts
state_counts-total [] = refl
state_counts-total (v ∷ vs) = ground (arith, state_counts-total vs)

exact :
    (vs : List Volume)
    → count_if (λ v. v.spec.num_replicas == 1) vs
        + count_if (λ v. v.spec.num_replicas == 2) vs
        + count_if (λ v. v.spec.num_replicas == 3) vs
        + count_if (λ v. v.spec.num_replicas == 4) vs
        + count_if (λ v. leb 5 v.spec.num_replicas) vs
      ≡ count_if (λ v. ltb 0 v.spec.num_replicas) vs
exact [] = refl
exact (v ∷ vs) = ground (arith, exact vs)

-- Of fewer than 2^32 volumes: the five counts add up to the number of volumes that have a replica.
pub replica_counts-total :
    (volumes : List Volume)
    → length volumes < 2 ^ 32
    → let c = replica_counts volumes in
      c.one_replica + c.two_replicas + c.three_replicas + c.four_replicas + c.five_or_more_replicas
      ≡ count_if (λ v. ltb 0 v.spec.num_replicas) volumes
unfolding replica_counts
replica_counts-total volumes h = omega (
  arith,
  exact volumes,
  h,
  count_if-le (λ v. v.spec.num_replicas == 1) volumes,
  count_if-le (λ v. v.spec.num_replicas == 2) volumes,
  count_if-le (λ v. v.spec.num_replicas == 3) volumes,
  count_if-le (λ v. v.spec.num_replicas == 4) volumes,
  count_if-le (λ v. leb 5 v.spec.num_replicas) volumes,
)
