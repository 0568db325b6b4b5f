-- ===== src/App/Flight/Runs.antt =====
-- The steps of cmd/dmz-collector/main.go: its calls and the rounds of its worker.
use dmz_collector.Base.{ℕ, String, Bool, [], arith, Bool-cases, inl, inr}
use dmz_collector.Event.{Event}
use dmz_collector.Buffer.Queue
use dmz_collector.Config.{ForwardingConfig, Write}
use dmz_collector.Forwarder.{Net}
use dmz_collector.App.{is_forwarding_enabled, App, Env, ingest_one}
use dmz_collector.App.Forward.{
  Worker, worker_round, update_forwarding_config, flush_forwarding, SplunkResult,
  forward_splunk_async,
}
use dmz_collector.App.Start.{
  Found, built, load_seen_ids, bootstrap_source_catalog, bootstrap_spool_queue, start,
}
use dmz_collector.App.Flight.{IsTracked}
use dmz_collector.App.Flight.Rounds.{worker_round-IsTracked}
use dmz_collector.App.Flight.Moves.{
  SameFlight, SameFlight-IsTracked, enqueue_pending-IsTracked, ingest_one-IsTracked,
  update-IsTracked, splunk-IsTracked,
}

-- One step: an event comes in, the configuration is changed, a flush is asked for, the worker does a
-- round with a batch size, or a Splunk goroutine ends.
pub data Step : App × Worker → App × Worker → Type 0 where
  ingests : (env : Env) (e : Event) (a : App) (w : Worker) → Step (a, w) ((ingest_one env e a).0, w)
  configures :
      (env : Env) (answer : Write) (cfg : ForwardingConfig) (a : App) (w : Worker)
      → Step (a, w) ((update_forwarding_config env answer cfg a).0, w)
  flushes : (env : Env) (a : App) (w : Worker) → Step (a, w) ((flush_forwarding env a).0, w)
  forwards :
      (env : Env) (net : Net) (batch_size : ℕ) (a : App) (w : Worker)
      → Step (a, w) (worker_round env net batch_size (a, w))
  answers :
      (env : Env) (n : ℕ) (r : SplunkResult) (a : App) (w : Worker)
      → Step (a, w) (forward_splunk_async env n r a, w)

abbrev pub idle : Worker
idle = record { pending = []; attempt = 0; sent = [] }

pub Step-IsTracked :
    (id : String) (extra : ℕ) {s t : App × Worker}
    → Step s t
    → IsTracked id extra s
    → IsTracked id extra t
unfolding flush_forwarding
Step-IsTracked id extra (ingests env e a w) t = ingest_one-IsTracked id extra env e a w t
Step-IsTracked id extra (configures env answer cfg a w) t =
    update-IsTracked id extra env answer cfg a w t
Step-IsTracked id extra (flushes env a w) t = enqueue_pending-IsTracked id extra env a w t
Step-IsTracked id extra (forwards env net n a w) t = worker_round-IsTracked id extra env net n a w t
Step-IsTracked id extra (answers env n r a w) t = splunk-IsTracked id extra env n r a w t

built-IsTracked :
    (id : String) (extra : ℕ) (env : Env) (f : Found) → IsTracked id extra (built env f, idle)
unfolding built IsTracked Queue.new_queue
built-IsTracked id extra env f = ground arith

loaded-SameFlight :
    (env : Env) (readable : Bool) (a : App) → SameFlight a (load_seen_ids env readable a)
unfolding load_seen_ids
loaded-SameFlight env readable a = ground arith

catalogued-SameFlight :
    (env : Env) (readable : Bool) (a : App) → SameFlight a (bootstrap_source_catalog env readable a)
unfolding bootstrap_source_catalog
catalogued-SameFlight env readable a = ground arith

bootstrap-IsTracked :
    (id : String) (extra : ℕ) (env : Env) (a : App)
    → IsTracked id extra (a, idle)
    → IsTracked id extra (bootstrap_spool_queue env a, idle)
unfolding bootstrap_spool_queue
bootstrap-IsTracked id extra env a t = elim (Bool-cases (is_forwarding_enabled a)) [
  | inl on ↦ rw on (enqueue_pending-IsTracked id extra env a idle t)
  | inr off ↦ rw off t
]

pub start-IsTracked :
    (id : String) (extra : ℕ) (env : Env) (f : Found) → IsTracked id extra (start env f, idle)
unfolding start
start-IsTracked id extra env f =
    let a = built env f in
    let b = load_seen_ids env f.store_readable a in
    let c = bootstrap_source_catalog env f.store_readable b in
    bootstrap-IsTracked id extra env c (
      SameFlight-IsTracked id extra b c idle (catalogued-SameFlight env f.store_readable b) (
        SameFlight-IsTracked id extra a b idle (loaded-SameFlight env f.store_readable a)
          (built-IsTracked id extra env f)))
