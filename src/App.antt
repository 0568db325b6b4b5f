-- ===== src/App.antt =====
-- cmd/dmz-collector/main.go: the collector's state, and how an event is taken in.
-- A method runs at one reading of the clock; methods are steps of one sequence. The goroutine
-- that sends an event to Splunk is an entry of `dispatched` until its result is recorded.
pub mod Start
pub mod Forward
pub mod Ingest
pub mod Batch
pub mod Flight
pub mod Loss
pub mod Syslog
pub mod Growth
pub mod Sent
pub mod Progress
pub mod Delivery
use dmz_collector.Base.{
  ℕ, ◌+◌, String, Bool, true, false, ◌&&◌, ◌||◌, not, List, [], ◌∷◌, ◌++◌, Option, none, some, Map,
  insert, member, if◌then◌else◌, ◌==◌,
}
use dmz_collector.Event.{Platform, Clock, Event}
use dmz_collector.Normalizer.{
  Error, store_failed, spool_failed, Result, ok, err, validate_and_normalize, enrich_dmz,
}
use dmz_collector.Disk.{Codec, File}
use dmz_collector.Buffer.Queue.{Queue}
use dmz_collector.Buffer.Queue
use dmz_collector.Buffer.Spool.{Spool, SpoolRecord}
use dmz_collector.Buffer.Spool
use dmz_collector.Storage
use dmz_collector.Stats.{Stats}
use dmz_collector.Stats
use dmz_collector.Config.{ConfigLib, ForwardingStore}
use dmz_collector.Hub.{StreamHub, publish}
use dmz_collector.Catalog.{Catalog}
use dmz_collector.Catalog.Observe.{observe_event}

pub record App : Type 0 where
  pub store : File
  pub spool : Spool
  pub queue : Queue
  pub stats : Stats
  pub hub : StreamHub
  pub fwd : ForwardingStore
  pub catalog : Catalog
  pub seen_ids : List String
  pub inflight : List String
  pub offset_by_id : Map ℕ
  pub splunk_enabled : Bool
  pub dispatched : List Event
  pub splunk_success_count : ℕ
  pub splunk_failed_count : ℕ
  pub splunk_last_success_at : String
  pub splunk_last_failure_at : String
  pub splunk_last_error : String
  pub splunk_last_event_id : String
  pub last_hec_error : String
  pub failed_batches : ℕ

-- What the surroundings give one call: the libraries, the clock, and the file system's answers.
pub record Env : Type 0 where
  pub config : ConfigLib
  pub platform : Platform
  pub codec : Codec
  pub clock : Clock
  pub store_writable : Bool
  pub spool_writable : Bool
  pub spool_readable : Bool
  pub checkpoint_writable : Bool

unfoldable pub is_forwarding_enabled : App → Bool
is_forwarding_enabled a = not a.fwd.cfg.paused && a.fwd.cfg.syslog_forward_enabled

-- enqueueIfNeeded has three critical sections: the test of the ids in flight, the push, and the mark.
unfoldable pub may_enqueue : App → Event → Bool
may_enqueue a e = not (member e.id a.inflight)

unfoldable pub push_event : App → Event → App × Bool
push_event a e = let (q, pushed) = Queue.push a.queue e in (record a { queue = q }, pushed)

unfoldable pub mark_inflight : App → Event → ℕ → App
mark_inflight a e offset = record a {
  inflight = e.id ∷ a.inflight;
  offset_by_id = insert e.id offset a.offset_by_id;
}

-- enqueueIfNeeded, where no other call comes in between.
unfoldable pub enqueue_if_needed : App → Event → ℕ → App × Bool
unfolding may_enqueue push_event mark_inflight
enqueue_if_needed a e offset =
    if not (may_enqueue a e)
    then (a, false)
    else (let (b, pushed) = push_event a e in
        if pushed then (mark_inflight b e offset, true) else (b, false))

unfoldable pub dispatch_splunk_forward : Event → App → App
dispatch_splunk_forward e a =
    if a.splunk_enabled then record a { dispatched = a.dispatched ++ e ∷ [] } else a

-- The event is counted, put in the catalogue, published, and handed to Splunk.
unfoldable pub noted : Env → Event → ℕ → App → App
unfolding dispatch_splunk_forward
noted env e offset a = dispatch_splunk_forward e (record a {
  offset_by_id = insert e.id offset a.offset_by_id;
  stats = Stats.add env.platform env.clock e a.stats;
  catalog = (observe_event env.clock.text e a.catalog).0;
  hub = publish e a.hub;
})

-- The rest of ingestOne, once the event is on disk.
unfoldable pub accept : Env → Event → ℕ → App → App × Result (Bool × Bool)
accept env e offset a =
    let b = noted env e offset a in
    if is_forwarding_enabled b
    then (let (c, queued) = enqueue_if_needed b e offset in (c, ok (true, queued)))
    else (b, ok (true, false))

unfoldable pub spooled : Env → Event → App → App × Result (Bool × Bool)
spooled env e a =
    let (answer, s) = Spool.append env.codec env.spool_writable a.spool e in
    elim answer [
      | none ↦ (record a { spool = s }, err spool_failed)
      | some offset ↦ accept env e offset (record a { spool = s })
    ]

unfoldable pub stored : Env → Event → App → App × Result (Bool × Bool)
stored env e a =
    let (written, f) = Storage.append env.codec env.store_writable a.store e in
    if written then spooled env e (record a { store = f }) else (a, err store_failed)

-- ingestOne past normalization: an id that was seen is passed over, and is seen from now on.
unfoldable pub take_in : Env → Event → App → App × Result (Bool × Bool)
unfolding stored spooled
take_in env e a =
    if member e.id a.seen_ids
    then (a, ok (false, false))
    else stored env e (record a { seen_ids = e.id ∷ a.seen_ids })

-- ingestOne: whether the event was accepted, and whether it was queued.
unfoldable pub ingest_one : Env → Event → App → App × Result (Bool × Bool)
ingest_one env event a = elim (validate_and_normalize env.platform env.clock.text event) [
  | err e ↦ (a, err e)
  | ok ev ↦ take_in env (enrich_dmz env.clock.text ev) a
]

pub record Tally : Type 0 where
  pub accepted : ℕ
  pub rejected : ℕ
  pub queued : ℕ
  pub errs : List Error

unfoldable pub tally : Result (Bool × Bool) → Tally → Tally
tally (err e) t = record t { rejected = t.rejected + 1; errs = t.errs ++ e ∷ [] }
tally (ok (accepted, queued)) t = record t {
  accepted = t.accepted + (if accepted then 1 else 0);
  queued = t.queued + (if queued then 1 else 0);
}

-- The loop of IngestBatch; each event comes with its own surroundings.
unfoldable pub ingest_from : Tally → List (Env × Event) → App → App × Tally
unfolding tally
ingest_from t [] a = (a, t)
ingest_from t ((env, e) ∷ es) a =
    ingest_from (tally (ingest_one env e a).1 t) es (ingest_one env e a).0

abbrev pub no_tally : Tally
no_tally = record { accepted = 0; rejected = 0; queued = 0; errs = [] }

-- IngestBatch
unfoldable pub ingest_batch : List (Env × Event) → App → App × Tally
ingest_batch es a = ingest_from no_tally es a
