-- ===== src/App/Start.antt =====
-- cmd/dmz-collector/main.go: the state that main builds, and what it loads before it serves.
-- The metadata that syncOTMetadata fetches from the OT collector is not part of it.
use dmz_collector.Base.{ℕ, String, Bool, List, [], Option, none, some, if◌then◌else◌}
use dmz_collector.Disk.{File}
use dmz_collector.Buffer.Queue
use dmz_collector.Buffer.Spool
use dmz_collector.Storage
use dmz_collector.Stats
use dmz_collector.Config.{ForwardingStore}
use dmz_collector.Hub.{new_stream_hub}
use dmz_collector.Catalog.{SourceStatus, new_catalog, seed_configured_sources}
use dmz_collector.Catalog.Observe.{bootstrap_events}
use dmz_collector.App.{App, Env, is_forwarding_enabled}
use dmz_collector.App.Forward.{enqueue_pending}

-- What main finds: the files, the configuration store, and the sources that the code lists.
pub record Found : Type 0 where
  pub store : File
  pub store_readable : Bool
  pub spool : File
  pub checkpoint : Option ℕ
  pub fwd : ForwardingStore
  pub ot_url : String
  pub splunk_enabled : Bool
  pub default_sources : List SourceStatus

-- The composite literal of main, and initSources.
unfoldable pub built : Env → Found → App
built env f = record {
  store = f.store;
  spool = Spool.new_spool f.spool f.checkpoint;
  queue = Queue.new_queue 4096;
  stats = Stats.new_stats;
  hub = new_stream_hub;
  fwd = f.fwd;
  catalog =
      seed_configured_sources env.clock.text f.default_sources
        (new_catalog env.clock.text f.ot_url);
  seen_ids = [];
  inflight = [];
  offset_by_id = [];
  splunk_enabled = f.splunk_enabled;
  dispatched = [];
  splunk_success_count = 0;
  splunk_failed_count = 0;
  splunk_last_success_at = "";
  splunk_last_failure_at = "";
  splunk_last_error = "";
  splunk_last_event_id = "";
  last_hec_error = "";
  failed_batches = 0;
}

-- loadSeenIDs: on an error no id is known.
unfoldable pub load_seen_ids : Env → Bool → App → App
load_seen_ids env readable a =
    elim (Storage.load_id_set env.codec env.platform env.clock.text readable a.store) [
      | none ↦ a
      | some ids ↦ record a { seen_ids = ids }
    ]

-- bootstrapSourceCatalog
unfoldable pub bootstrap_source_catalog : Env → Bool → App → App
bootstrap_source_catalog env readable a =
    elim (Storage.load_all env.codec env.platform env.clock.text readable a.store) [
      | none ↦ a
      | some es ↦ record a { catalog = bootstrap_events env.clock.text es a.catalog }
    ]

-- bootstrapSpoolQueue
unfoldable pub bootstrap_spool_queue : Env → App → App
bootstrap_spool_queue env a = if is_forwarding_enabled a then (enqueue_pending env a).0 else a

-- What main does before it starts its goroutines.
unfoldable pub start : Env → Found → App
start env f = bootstrap_spool_queue env (
    bootstrap_source_catalog env f.store_readable
      (load_seen_ids env f.store_readable (built env f)))
