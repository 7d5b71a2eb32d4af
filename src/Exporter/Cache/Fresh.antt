-- ===== src/Exporter/Cache/Fresh.antt =====
-- What the cache holds after a round of requests.
use mayastor_extensions.Prelude.{false, ◌≡◌, ◌≢◌, refl, sym, subst, List, []}
use mayastor_extensions.Exporter.Client.{
  Answer, GrpcClient, err, get_nexus_iostat, get_pool_iostat, get_replica_iostat, list_pools, ok,
  panicked,
}
use mayastor_extensions.Exporter.Cache.{
  Cache, Data, Stored, after, refused, store, store_nexus_stats_data, store_pool_info_data,
  store_pool_stats_data, store_replica_stats_data, store_resource_data, stored, unwound,
}

-- What was answered; nothing in case of an error.
abbrev pub answered : {A : Type 0} → Answer (List A) → List A
answered (ok val) = val
answered (err error) = []
answered panicked = []

-- The answers of this round alone.
abbrev pub snapshot : GrpcClient → Data
snapshot client = record {
  pools = answered (list_pools client);
  pool_stats = answered (get_pool_iostat client);
  nexus_stats = answered (get_nexus_iostat client);
  replica_stats = answered (get_replica_iostat client);
}

abbrev pub holding : Data → Cache
holding contents = record { poisoned = false; contents = contents }

module _ {A : Type 0} (a : Answer (List A)) (set : Data → List A → Data) where
  abbrev next : Cache → Stored × Cache
  next cache = store a (set cache.contents) cache

  next-holding :
      (contents : Data)
      → (next (holding contents)).0 ≢ unwound
      → (next (holding contents)).1 ≡ holding (set contents (answered a))
  next-holding contents = go a
    where
      go :
          (a : Answer (List A))
          → (store a (set contents) (holding contents)).0 ≢ unwound
          → (store a (set contents) (holding contents)).1 ≡ holding (set contents (answered a))
      go (ok val) h = refl
      go (err error) h = refl
      go panicked h = absurd (h refl)

  -- The part is replaced, if the store before it has gone through.
  after-holding :
      (first : Stored × Cache) (contents : Data)
      → (first.0 ≢ unwound → first.1 ≡ holding contents)
      → (after first next).0 ≢ unwound
      → (after first next).1 ≡ holding (set contents (answered a))
  after-holding (unwound, cache) contents e h = absurd (h refl)
  after-holding (stored, cache) contents e h =
      subst (λ k. (next k).0 ≢ unwound → (next k).1 ≡ holding (set contents (answered a)))
        (sym (e (λ p. absurd cc))) (next-holding contents) h
  after-holding (refused, cache) contents e h =
      subst (λ k. (next k).0 ≢ unwound → (next k).1 ≡ holding (set contents (answered a)))
        (sym (e (λ p. absurd cc))) (next-holding contents) h

-- When no thread has panicked with the lock, and no request of this round panics, the cache holds what
-- the io-engine has answered in this round, and nothing for each request that has failed: no value of
-- an earlier round is left.
pub store_resource_data-snapshot :
    (client : GrpcClient) (contents : Data)
    → (store_resource_data client (holding contents)).0 ≢ unwound
    → (store_resource_data client (holding contents)).1 ≡ holding (snapshot client)
unfolding store_resource_data store_pool_info_data store_pool_stats_data store_nexus_stats_data
    store_replica_stats_data
store_resource_data-snapshot client contents =
    after-holding (get_replica_iostat client) (λ c val. record c { replica_stats = val }) _ _
      (after-holding (get_nexus_iostat client) (λ c val. record c { nexus_stats = val }) _ _
        (after-holding (get_pool_iostat client) (λ c val. record c { pool_stats = val }) _ _
          (next-holding (list_pools client) (λ c val. record c { pools = val }) contents)))
