-- ===== src/Exporter/Serve/Scrape.antt =====
-- What a scrape of the exporter shows of the io-engine's answers.
use mayastor_extensions.Prelude.{
  ℕ, String, ◌≡◌, ◌≢◌, refl, sym, ap, ◌∙◌, Option, none, some, List, [], ◌∷◌, ◌++◌,
}
use mayastor_extensions.Exporter.Client.{GrpcClient, get_nexus_iostat, list_pools}
use mayastor_extensions.Exporter.Cache.{
  Cache, Data, Stored, refused, store_resource_data, stored, unwound,
}
use mayastor_extensions.Exporter.Cache.Fresh.{
  answered, holding, snapshot, store_resource_data-snapshot,
}
use mayastor_extensions.Exporter.Collector.{
  Env, MetricFamily, collect_nexus_io_stats, collect_pool_capacity, collect_pool_io_stats,
  collect_pool_status, collect_replica_io_stats, nexus_io_stats_collector, nexus_stat_settings,
  pool_capacity_collector, pool_io_stats_collector, pool_settings, pool_stat_settings,
  pool_status_collector, pv_name, replica_io_stats_collector, replica_stat_settings,
  status_settings,
}
use mayastor_extensions.Exporter.Collector.Samples.{
  Accepts, collect-first, collect-none, first_of, or_else, or_else-none, sample, sample-append,
  value_if, values_eq,
}
use mayastor_extensions.Exporter.Serve.{gather, metrics_handler, respond}

or_else-cong : {a a' b b' : Option ℕ} → a ≡ a' → b ≡ b' → or_else a b ≡ or_else a' b'
or_else-cong p q = cc

sample-both :
    (name : String) (values : List String) (xs ys : List MetricFamily) {x y : Option ℕ}
    → sample name values xs ≡ x
    → sample name values ys ≡ y
    → sample name values (xs ++ ys) ≡ or_else x y
sample-both name values xs ys p q = sample-append name values xs ys ∙ or_else-cong p q

four_more : (a : Option ℕ) → or_else (or_else (or_else (or_else a none) none) none) none ≡ a
four_more none = refl
four_more (some a) = refl

module _ (env : Env) (contents : Data) (node : String) (values : List String) (a : Accepts env)
    (named : env.node_name ≡ some node) where
  abbrev cache : Cache
  cache = holding contents

  gather-sample :
      (name : String) {p q r s u : Option ℕ}
      → sample name values (collect_pool_capacity pool_capacity_collector env cache) ≡ p
      → sample name values (collect_pool_status pool_status_collector env cache) ≡ q
      → sample name values (collect_pool_io_stats pool_io_stats_collector env cache) ≡ r
      → sample name values (collect_nexus_io_stats nexus_io_stats_collector env cache) ≡ s
      → sample name values (collect_replica_io_stats replica_io_stats_collector env cache) ≡ u
      → sample name values (gather env cache) ≡ or_else (or_else (or_else (or_else p q) r) s) u
  unfolding gather
  gather-sample name hp hq hr hs hu =
      let capacity = collect_pool_capacity pool_capacity_collector env cache in
      let status = collect_pool_status pool_status_collector env cache in
      let pools = collect_pool_io_stats pool_io_stats_collector env cache in
      let nexuses = collect_nexus_io_stats nexus_io_stats_collector env cache in
      let replicas = collect_replica_io_stats replica_io_stats_collector env cache in
      sample-both name values (capacity ++ status ++ pools ++ nexuses) replicas
        (sample-both name values (capacity ++ status ++ pools) nexuses
          (sample-both name values (capacity ++ status) pools
            (sample-both name values capacity status hp hq) hr)
          hs)
        hu

  capacity-first :
      sample "diskpool_total_size_bytes" values (gather env cache)
      ≡ first_of
          (λ pool. value_if (values_eq (node ∷ pool.name ∷ []) values) pool.capacity)
          contents.pools
  unfolding collect_pool_capacity collect_pool_status collect_pool_io_stats collect_nexus_io_stats
      collect_replica_io_stats
  capacity-first =
      let name : String = "diskpool_total_size_bytes" in
      gather-sample name
        (collect-first env cache node name values (pool_settings pool_capacity_collector)
          (λ pool. value_if (values_eq (node ∷ pool.name ∷ []) values) pool.capacity) contents.pools
          a named refl (λ item. (refl, (refl, (refl, tt)))) (λ item. or_else-none _))
        (collect-none env cache node name values (status_settings pool_status_collector)
          contents.pools a named refl (λ item. (refl, tt)) (λ item. refl))
        (collect-none env cache node name values (pool_stat_settings pool_io_stats_collector)
          contents.pool_stats a named refl
          (λ item. (refl, (refl, (refl, (refl, (refl, (refl, tt))))))) (λ item. refl))
        (collect-none env cache node name values (nexus_stat_settings nexus_io_stats_collector)
          contents.nexus_stats a named refl
          (λ item. (refl, (refl, (refl, (refl, (refl, (refl, tt))))))) (λ item. refl))
        (collect-none env cache node name values (replica_stat_settings replica_io_stats_collector)
          contents.replica_stats a named refl
          (λ item. (refl, (refl, (refl, (refl, (refl, (refl, tt))))))) (λ item. refl))
      ∙ four_more _

  latency-first :
      sample "volume_read_latency_us" values (gather env cache)
      ≡ first_of
          (λ stat. value_if (values_eq (node ∷ pv_name stat.name ∷ []) values) stat.read_latency_us)
          contents.nexus_stats
  unfolding collect_pool_capacity collect_pool_status collect_pool_io_stats collect_nexus_io_stats
      collect_replica_io_stats
  latency-first =
      let name : String = "volume_read_latency_us" in
      gather-sample name
        (collect-none env cache node name values (pool_settings pool_capacity_collector)
          contents.pools a named refl (λ item. (refl, (refl, (refl, tt)))) (λ item. refl))
        (collect-none env cache node name values (status_settings pool_status_collector)
          contents.pools a named refl (λ item. (refl, tt)) (λ item. refl))
        (collect-none env cache node name values (pool_stat_settings pool_io_stats_collector)
          contents.pool_stats a named refl
          (λ item. (refl, (refl, (refl, (refl, (refl, (refl, tt))))))) (λ item. refl))
        (collect-first env cache node name values (nexus_stat_settings nexus_io_stats_collector)
          (λ stat. value_if (values_eq (node ∷ pv_name stat.name ∷ []) values) stat.read_latency_us)
          contents.nexus_stats a named refl
          (λ item. (refl, (refl, (refl, (refl, (refl, (refl, tt))))))) (λ item. or_else-none _))
        (collect-none env cache node name values (replica_stat_settings replica_io_stats_collector)
          contents.replica_stats a named refl
          (λ item. (refl, (refl, (refl, (refl, (refl, (refl, tt))))))) (λ item. refl))
      ∙ or_else-none _

responded :
    (env : Env) (result : Stored) (cache : Cache) (families : List MetricFamily)
    → respond env result cache ≡ some families
    → (result ≢ unwound) × (gather env cache ≡ families)
responded env stored cache families h = ((λ p. absurd cc), cc)
responded env refused cache families h = ((λ p. absurd cc), cc)
responded env unwound cache families h = absurd (cc h)

-- When no thread has panicked with the cache's lock, the node's name is set, and prometheus accepts as
-- many values as a metric has labels, then a scrape that is answered shows, for any label values, the
-- capacity of the first pool of that name, and the read latency of the first nexus of that volume,
-- that the io-engine has answered with for this scrape; if the request has failed, there is no such
-- sample. What an earlier scrape has left in the cache does not matter.
pub metrics_handler-answers :
    (client : GrpcClient) (env : Env) (contents : Data) (node : String) (values : List String)
    (families : List MetricFamily)
    → Accepts env
    → env.node_name ≡ some node
    → (metrics_handler client env (holding contents)).0 ≡ some families
    → (sample "diskpool_total_size_bytes" values families
        ≡ first_of
            (λ pool. value_if (values_eq (node ∷ pool.name ∷ []) values) pool.capacity)
            (answered (list_pools client)))
      × (sample "volume_read_latency_us" values families
          ≡ first_of
              (λ stat.
                value_if (values_eq (node ∷ pv_name stat.name ∷ []) values) stat.read_latency_us)
              (answered (get_nexus_iostat client)))
unfolding metrics_handler
metrics_handler-answers client env contents node values families a named h =
    let (result, cache') = store_resource_data client (holding contents) in
    let (went_on, same) = responded env result cache' families h in
    let fresh = store_resource_data-snapshot client contents went_on in
    let shown : gather env (holding (snapshot client)) ≡ families =
      ap (gather env) (sym fresh) ∙ same in
    (
      ap (sample "diskpool_total_size_bytes" values) (sym shown)
          ∙ capacity-first env (snapshot client) node values a named,
      ap (sample "volume_read_latency_us" values) (sym shown)
          ∙ latency-first env (snapshot client) node values a named,
    )
