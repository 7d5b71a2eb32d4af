-- ===== src/Lib.antt =====
-- The verification library of mayastor-extensions, the Kubernetes side of OpenEBS Mayastor.
--
-- The program's parts. The upgrade job (k8s/upgrade/src/bin/upgrade-job) takes an installed
-- release to the version of the chart that it carries: `upgrade` builds an event recorder and
-- hands over to `upgrade_product`, which builds an upgrader for the release's chart, dry-runs
-- `helm upgrade`, runs it, and then restarts the io-engine Pods one by one (`upgrade_data_plane`),
-- with a node drained meanwhile where that is safe. Call-home (call-home/src/bin) counts the
-- events of the message bus in one program (stats), exports the counters as metrics, and scrapes
-- them for a report on the cluster in another (callhome). The kubectl plugin
-- (k8s/upgrade/src/plugin) checks the cluster, creates the Job that runs the upgrade job with the
-- objects that it needs, waits for its first event, shows its status and deletes it. The metrics
-- exporter (metrics-exporter/src/bin/io_engine) answers a scrape: it asks the io-engine for its
-- pools and statistics, keeps them in a cache, and hands the cache to prometheus collectors.
--
-- How the job and the plugin are modelled. An async function is a function of an environment and
-- of the calls so far (Effect: `Program`; Upgrade.Job and Plugin.Task: `M`); it returns, fails
-- with an `Error` or is still polling. The environment (Upgrade.Env, Plugin.Env) holds what is
-- outside the repository: the REST API, Kubernetes, helm, yq, files, and the parsers and printers
-- of the crates. A reply is an arbitrary function of all calls made before it, so that a theorem
-- about every environment covers whatever the cluster does between two calls. Each call and its
-- reply are recorded, the latest first; the theorems are about this record. Log lines are not part
-- of it.
--
-- Files, and the code they model:
-- - Upgrade.Error, Upgrade.Constants, Upgrade.Version, Upgrade.Values: common/error.rs,
--   common/constants.rs, the semver crate as it is used, the values that the getters of
--   helm/chart.rs return. Upgrade.Version.Order: the tests of versions in terms of the crate's
--   order.
-- - Upgrade.Models: the objects of the REST API and of Kubernetes, with the fields that the job
--   reads.
-- - Upgrade.Rest, Upgrade.Kube: common/rest_client.rs and common/kube_client.rs.
--   Upgrade.Kube.Listings has what an API server hands out page by page.
-- - Upgrade.Pods, Upgrade.Cordon, Upgrade.Rebuild: upgrade/utils.rs, with the loops of
--   upgrade/data_plane.rs that drain, uncordon and wait.
-- - Upgrade.DataPlane: upgrade/data_plane.rs. Its child Watch is the specification: a watcher that
--   reads the calls and keeps what the last listings and replies have shown.
-- - Upgrade.Path, Upgrade.Events: upgrade/path.rs, events/event_recorder.rs.
-- - Upgrade.Helm: helm/client.rs (Client), helm/yaml/yq.rs (Yq, Number), helm/values.rs and
--   common/file.rs (Values), helm/upgrade.rs (Upgrader).
-- - Upgrade.Opts: opts/validators.rs and main.rs, `parse_cli_args`.
-- - Upgrade.Product: upgrade.rs and opts.rs. Its child Phases is the specification of a whole run;
--   Failures has what is told of one that fails.
-- - Upgrade.Lab: a small cluster for the examples.
-- - CallHome.Stats: stats/cache and stats/exporter/events_collector.rs. CallHome.Records: the
--   scrape's reader in callhome/collector/report_models.rs. CallHome.Volumes and CallHome.Media:
--   its counts, sizes and disks. CallHome.Logs: the error log of callhome/main.rs.
-- - Plugin: k8s/upgrade/src/plugin. Plugin.Objects and Plugin.Role: objects.rs. Plugin.SetFile,
--   Plugin.Deployment, Plugin.Resources, Plugin.Events, Plugin.Apply: upgrade.rs, from the files
--   for helm to the commands. Plugin.Preflight: preflight_validations.rs. Plugin.Error,
--   Plugin.Constants: error.rs, constants.rs and the names in constants/src/lib.rs.
--   Plugin.Resources.Seen is the specification of the order in which the objects come and go;
--   Plugin.Objects.Access that of the upgrade job's permissions. Plugin.Preflight.Listed has what
--   the REST API hands out page by page, Plugin.Preflight.Own the version that the plugin was
--   built from.
-- - Exporter: metrics-exporter/src/bin/io_engine. Exporter.Client, Exporter.Cache,
--   Exporter.Collector and Exporter.Serve: the directories of these names. The answers of the
--   io-engine are a record, and a panic is a result of its own, as is a poisoned lock.
--   Exporter.Collector.Samples looks a sample up among the collected ones.
-- - Effect: the effect of the async functions, which both programs share; Paging has the loop over
--   pages. Effect.Hoare, Effect.Keeps and their like in Upgrade.Job: the rules by which a property
--   of the record is carried through a function. Effect.Ends: functions that end in a bounded
--   time.
--
-- Bounds and fuel. The source's polling loops have no end of their own. Each is followed for as
-- many rounds as the environment's `rounds` says, and a loop that has used them up is `pending`,
-- an outcome of its own that is neither a result nor an error. Statements about every run hold for
-- every number of rounds; in the example cluster twelve rounds are enough for a whole upgrade to
-- return. A listing needs as many rounds as it has pages. The plugin's own polling is six rounds
-- of ten seconds, as in the source. `log_with_limit` is followed for one round more than the log
-- has entries, which is enough for a limit above 0; with a limit of 0 the source does not end.
-- Counters of 32 bits and sums of 64 bits wrap around, as in a release build.
--
-- Not modelled. The worker that takes the events from the recorder's channel, logging, the text of
-- errors, the defaults that serde fills in, the report's floats, its HTTP and encryption, the
-- ConfigMap of the counters; supportability, the plugin's command line and the proxy. The
-- exporter's connection to the io-engine, and prometheus' registry (registration is taken to
-- succeed) with its order and encoding. Of the plugin, the labels of the objects, what it prints
-- of objects that it has created, and the Job's environment variables. What helm asks of
-- Kubernetes. Text that a process prints is taken to be UTF-8.
pub mod Prelude
pub mod Effect
pub mod CallHome
pub mod Upgrade
pub mod Plugin
pub mod Exporter
