-- ===== src/Lib.antt =====
-- dmz_collector: a model of the event collector of this repository, in the parts that carry its
-- own logic, and what holds of it.
--
-- The program takes security and process events in over HTTP and syslog, gives each a canonical
-- form, stores it in a file of JSON lines, appends it to a spool, counts it, enters its source in a
-- catalogue, publishes it to live streams, and forwards it to a syslog receiver and to Splunk.
--
-- Parts, each with the file of the repository that it models:
--   * Value, Event: internal/event/model.go. A JSON value is the data type Value; an Event is the
--     struct; parse_object is ParseOne after json.Unmarshal, parse_many is ParseMany,
--     ensure_defaults is EnsureDefaults, to_map is ToMap. Event.Splunk: internal/event/splunk.go.
--   * SourceUtil: internal/sourceutil/source.go. Each switch of the file is a table.
--   * Normalizer: internal/normalizer/validator.go and enricher.go (validate_and_normalize,
--     enrich_dmz).
--   * Buffer.Queue: internal/buffer/queue.go. A channel is the list of its events.
--   * Disk, Buffer.Spool: internal/buffer/spool.go. A file is its lines; offsets are its sizes.
--   * Storage: internal/storage/jsonl.go (append, read_filtered, read_by_id, load_id_set, load_all).
--   * Stats: internal/stats/stats.go (add, top_one).
--   * Catalog, Catalog.Observe, Catalog.Redact: internal/sourcecatalog/catalog.go (observe_event,
--     merge_configured_sources, seed_configured_sources, redact_event_for_ui). Catalog.View,
--     Catalog.Summary: Snapshot, Summary and Detail.
--   * Config: internal/config/forwarding.go (replace, load_or_init, update_paused, and
--     the file's object by the struct's tags: encoded, decoded).
--     Config.Environment: internal/config/config.go (load_endpoint_token, load_splunk and the like).
--   * Hub: internal/api/stream.go (subscribe, unsubscribe, publish).
--   * Forwarder: internal/forwarder/retry.go (backoff) and syslog.go (syslog_send).
--   * App, App.Start, App.Forward: cmd/dmz-collector/main.go. The record App is the struct;
--     ingest_one is ingestOne, ingest_batch is IngestBatch, worker_round is one round of the loop of
--     runForwardWorker with its local variables in the record Worker, start is what main does before
--     its goroutines run. App calls the operations of the other parts in the order main.go does.
--     App.Progress.rounds is that loop for given rounds, App.Syslog what becomes of a firewall's line.
--   * Api, Api.Events, Api.Settings: internal/api/handlers.go, internal/api/server.go and
--     internal/auth/token.go (the handlers that take events in, list them, and read and set the
--     forwarding configuration).
--   * Receivers: internal/ingest. OpcuaDmz is opcua_dmz_events.go, Vault is vault_audit.go, Jumphost
--     is jumphost_events.go, Syslog is syslog_receiver.go, Ids is ids_receiver.go, Gds the
--     contract and the OPC UA facade of gds_events.go, each with its words, its event and its
--     bodies; Json, Mask, Rows, Bodies and Cases are what these share.
--   * Base, Text: lists, maps, sorting and the functions of Go's strings package that the code uses.
--   * Tests: one small collector, and the theorems applied to it.
-- The other modules of a part hold its theorems.
--
-- How the code is modelled. A method is a function from a state to a state and an answer; an error
-- is a value. What the file system answers is an argument (writable, readable, Write), the clock is
-- one reading for each call, and the functions of encoding/json, crypto/sha1, fmt, strconv and time on
-- whole texts are the fields of the records Platform, Codec and ConfigLib, of which a theorem assumes
-- what it names. Regular expressions are functions that give a match and its groups. The network is a
-- function from an attempt to an optional error. Maps are association lists, in the order of
-- insertion. Goroutines are steps of one sequence. A method runs alone in it, but in
-- App.Flight.Races: there the three critical sections of enqueueIfNeeded are steps of their own, a
-- batch may be taken long before it is sent, and other calls run in between.
--
-- Bounds. Numbers are unbounded except in backoff, which wraps around like Go's int64; counters stay
-- far below 2^63. Every loop is recursion on a list or on a count, so no fuel is used: the loop of
-- the worker is a relation of steps of any length. The letter case and the blanks of Text are those
-- of ASCII. A nil map is an empty map. An append that fails writes nothing; a write of the
-- configuration's file that fails leaves any file. A syslog port is a natural number, and the keys of
-- the configuration's file are those of the tags, in their letter case.
--
-- Not modelled: of internal/ingest/gds_events.go the events of the contract, of the control plane and of
-- free texts, with the bodies and the route; the socket of the syslog receiver; the record that Load of
-- internal/config/config.go fills; the Splunk client; the routes that only format a state as JSON
-- (StatsSummary among them) and the stream of events; the pull from the OT collector, self telemetry,
-- Vault, and the web interface. But for the first, they call libraries and services, or format what the
-- modelled operations give.

pub mod Base
pub mod Text
pub mod Value
pub mod SourceUtil
pub mod Event
pub mod Normalizer
pub mod Disk
pub mod Buffer
pub mod Storage
pub mod Stats
pub mod Catalog
pub mod Config
pub mod Hub
pub mod Forwarder
pub mod Receivers
pub mod Api
pub mod App
pub mod Tests
