-- ===== src/App/Forward.antt =====
-- cmd/dmz-collector/main.go: forwarding. The worker's local variables are the record Worker, and
-- each round of its loop is a step.
use Prim.Native.String.{◌++◌ as append_text}
use dmz_collector.Base.{
  ℕ, zero, suc, ◌+◌, String, Bool, true, false, ◌&&◌, ◌||◌, not, List, [], ◌∷◌, ◌++◌, Option, none,
  some, Map, lookup, discard, ltb, length, sort, flag_first, if◌then◌else◌, ◌==◌, max,
}
use dmz_collector.Event.{Event}
use dmz_collector.Buffer.Queue
use dmz_collector.Buffer.Spool.{SpoolRecord}
use dmz_collector.Buffer.Spool
use dmz_collector.Config.{ForwardingConfig, Write, replace}
use dmz_collector.Stats.{has_high_value}
use dmz_collector.Forwarder.{Net, syslog_send}
use dmz_collector.App.{App, Env, is_forwarding_enabled, enqueue_if_needed}

unfoldable pub enqueue_records : List SpoolRecord → App → App × ℕ
enqueue_records [] a = (a, 0)
enqueue_records (r ∷ rs) a =
    let (b, pushed) = enqueue_if_needed a r.event r.offset in
    let (c, n) = enqueue_records rs b in (c, (if pushed then 1 else 0) + n)

-- enqueuePendingFromSpool
unfoldable pub enqueue_pending : Env → App → App × ℕ
unfolding enqueue_records
enqueue_pending env a =
    elim (Spool.load_pending env.codec env.platform env.clock.text env.spool_readable a.spool) [
      | none ↦ (a, 0)
      | some rs ↦ enqueue_records rs a
    ]

-- The greatest known offset of a batch.
unfoldable pub max_offset : Map ℕ → List Event → Option ℕ
max_offset offsets [] = none
max_offset offsets (e ∷ es) = elim (lookup e.id offsets) [
  | none ↦ max_offset offsets es
  | some o ↦ elim (max_offset offsets es) [ none ↦ some o | some m ↦ some (max o m) ]
]

-- markBatchForwarded
unfoldable pub mark_batch_forwarded : Env → List Event → App → App
mark_batch_forwarded env batch a = elim (max_offset a.offset_by_id batch) [
  | none ↦ a
  | some o ↦ record a { spool = Spool.mark_forwarded env.checkpoint_writable o a.spool }
]

unfoldable pub discard_ids : List Event → List String → List String
discard_ids [] ids = ids
discard_ids (e ∷ es) ids = discard_ids es (discard e.id ids)

-- forgetInflight
unfoldable pub forget_inflight : List Event → App → App
unfolding discard_ids
forget_inflight batch a = record a { inflight = discard_ids batch a.inflight }

-- forwardBatch: the events that went out, and the error at the first that did not.
unfoldable pub forward_batch : Net → ForwardingConfig → List Event → List Event × Option String
forward_batch net cfg [] = ([], none)
forward_batch net cfg (e ∷ es) =
    let rest = forward_batch net cfg es in
    if cfg.syslog_forward_enabled
    then elim (syslog_send net cfg.syslog_forward_host cfg.syslog_forward_port
        cfg.syslog_forward_protocol e) [
          | some error ↦ ([], some error)
          | none ↦ (e ∷ rest.0, rest.1)
        ]
    else ([], none)

pub record Worker : Type 0 where
  -- Go's nil is the empty batch.
  pub pending : List Event
  pub attempt : ℕ
  -- every event sent so far, oldest first
  pub sent : List Event

abbrev pub by_value : List Event → List Event
by_value = sort (flag_first has_high_value)

unfoldable pub failed : Env → String → App × Worker → App × Worker
failed env error (a, w) = (
  record a {
    queue = Queue.mark_failure (length w.pending) env.clock.text a.queue;
    failed_batches = a.failed_batches + 1;
    last_hec_error = error;
  },
  record w { attempt = w.attempt + 1 },
)

unfoldable pub delivered : Env → App × Worker → App × Worker
delivered env (a, w) =
    let marked = record a {
      queue = Queue.mark_success (length w.pending) env.clock.text a.queue;
    } in
    let b = forget_inflight w.pending (mark_batch_forwarded env w.pending marked) in
    ((enqueue_pending env b).0, record w { pending = []; attempt = 0 })

-- The end of a round: the batch is put in order and sent.
unfoldable pub send_round : Env → Net → App × Worker → App × Worker
send_round env net (a, w) =
    let batch = by_value w.pending in
    let (out, answer) = forward_batch net a.fwd.cfg batch in
    let v = record w { pending = batch; sent = w.sent ++ out } in
    elim answer [ some error ↦ failed env error (a, v) | none ↦ delivered env (a, v) ]

-- A batch is taken where none is pending; nothing is sent while paused or without syslog.
unfoldable pub refill : ℕ → App × Worker → App × Worker
refill batch_size (a, w) = elim w.pending [
  | [] ↦
      (let (batch, q) = Queue.pop_batch batch_size a.queue in
        (record a { queue = q }, record w { pending = batch }))
  | _ ∷ _ ↦ (a, w)
]

unfoldable pub send_if_any : Env → Net → App × Worker → App × Worker
send_if_any env net (a, w) = elim w.pending [
  | [] ↦ (a, w)
  | _ ∷ _ ↦ if is_forwarding_enabled a then send_round env net (a, w) else (a, w)
]

-- One round of runForwardWorker.
unfoldable pub worker_round : Env → Net → ℕ → App × Worker → App × Worker
unfolding failed delivered send_round refill send_if_any
worker_round env net batch_size (a, w) =
    let b = record a { queue = Queue.set_paused a.fwd.cfg.paused a.queue } in
    send_if_any env net (refill batch_size (b, w))

-- UpdateForwardingConfig: an error is answered with the configuration already in memory.
unfoldable pub update_forwarding_config : Env → Write → ForwardingConfig → App → App × Bool
update_forwarding_config env answer cfg a =
    let (persisted, fwd) = replace env.config answer cfg a.fwd in
    let b = record a { fwd = fwd } in
    if persisted
    then (let c = record b { queue = Queue.set_paused cfg.paused b.queue } in
        if not cfg.paused && (cfg.splunk_enabled || cfg.syslog_forward_enabled)
        then ((enqueue_pending env c).0, true)
        else (c, true))
    else (b, false)

-- FlushForwarding
unfoldable pub flush_forwarding : Env → App → App × ℕ
flush_forwarding env a = enqueue_pending env a

-- What sending an event to Splunk came to: success, or an error's text if there is one, with the
-- status and the body of the response.
pub record SplunkResult : Type 0 where
  pub success : Bool
  pub status : ℕ
  pub body : String
  pub error : Option String

last_error_of : (ℕ → String) → SplunkResult → String → String
last_error_of itoa r old = elim r.error [
  | some e ↦ e
  | none ↦
      if not (r.body == "")
      then r.body
      else if ltb 0 r.status
      then append_text "splunk status " (itoa r.status)
      else old
]

-- recordSplunkAttempt
unfoldable pub record_splunk_attempt : Env → String → SplunkResult → App → App
unfolding last_error_of
record_splunk_attempt env id r a =
    if r.success
    then record a {
      splunk_last_event_id = id;
      splunk_success_count = a.splunk_success_count + 1;
      splunk_last_success_at = env.clock.text;
      splunk_last_error = "";
    }
    else record a {
      splunk_last_event_id = id;
      splunk_failed_count = a.splunk_failed_count + 1;
      splunk_last_failure_at = env.clock.text;
      splunk_last_error = last_error_of env.platform.itoa r a.splunk_last_error;
    }

-- The goroutine of the n-th dispatched event ends.
pick : ℕ → List Event → Option (Event × List Event)
pick n [] = none
pick zero (e ∷ es) = some (e, es)
pick (suc n) (e ∷ es) = elim (pick n es) [ none ↦ none | some (f, rest) ↦ some (f, e ∷ rest) ]

-- forwardSplunkAsync
unfoldable pub forward_splunk_async : Env → ℕ → SplunkResult → App → App
unfolding pick
forward_splunk_async env n r a = elim (pick n a.dispatched) [
  | none ↦ a
  | some (e, rest) ↦ record_splunk_attempt env e.id r (record a { dispatched = rest })
]
