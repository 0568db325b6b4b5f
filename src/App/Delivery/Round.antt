-- ===== src/App/Delivery/Round.antt =====
-- What a round of runForwardWorker of cmd/dmz-collector/main.go does with the batch in hand.
use dmz_collector.Base.{
  ℕ, ◌+◌, ◌-◌, ◌≡◌, refl, ap, member, member-discard, discard, exists, ◌&&◌, ◌==◌, ◌∙◌, subst,
  String, true, not, List, [], ◌∷◌, ◌++◌, Option, none, some, arith, length, keep, sort-partition,
}
use dmz_collector.Event.{Event}
use dmz_collector.Stats.{has_high_value}
use dmz_collector.Forwarder.{Net}
use dmz_collector.Buffer.Queue
use dmz_collector.Buffer.Spool.{SpoolRecord}
use dmz_collector.Buffer.Spool
use dmz_collector.App.Flight.{by_value-measure}
use dmz_collector.App.{
  App, Env, enqueue_if_needed, mark_inflight, may_enqueue, push_event, is_forwarding_enabled,
}
use dmz_collector.App.Forward.{
  Worker, max_offset, discard_ids, forward_batch, by_value, enqueue_records, enqueue_pending,
  mark_batch_forwarded, forget_inflight, worker_round, send_if_any, refill, send_round, failed,
  delivered,
}
use dmz_collector.App.Delivery.{IsSent, batch-IsSent}

-- The events of high value first, each kind in the order it had.
abbrev pub ranked : List Event → List Event
ranked es = keep has_high_value es ++ keep (λ e. not (has_high_value e)) es

ranked_lem : (es : List Event) → by_value es ≡ ranked es
ranked_lem es = sort-partition has_high_value es

enqueue_records-fields :
    (rs : List SpoolRecord) (a : App)
    → ((enqueue_records rs a).0.failed_batches ≡ a.failed_batches)
      × ((enqueue_records rs a).0.queue.stats.forwarded ≡ a.queue.stats.forwarded)
      × ((enqueue_records rs a).0.spool ≡ a.spool)
unfolding enqueue_records enqueue_if_needed Queue.push mark_inflight may_enqueue push_event
enqueue_records-fields [] a = (refl, refl, refl)
enqueue_records-fields (r ∷ rs) a =
    ground (arith, enqueue_records-fields rs (enqueue_if_needed a r.event r.offset).0)

enqueue_pending-fields :
    (env : Env) (a : App)
    → ((enqueue_pending env a).0.failed_batches ≡ a.failed_batches)
      × ((enqueue_pending env a).0.queue.stats.forwarded ≡ a.queue.stats.forwarded)
      × ((enqueue_pending env a).0.spool ≡ a.spool)
unfolding enqueue_pending
enqueue_pending-fields env a =
    elim (Spool.load_pending env.codec env.platform env.clock.text env.spool_readable a.spool)
      as (λ r.
        let b = (elim r as (λ x. App × ℕ) [ none ↦ (a, 0) | some rs ↦ enqueue_records rs a ]).0 in
        (b.failed_batches ≡ a.failed_batches)
        × (b.queue.stats.forwarded ≡ a.queue.stats.forwarded)
        × (b.spool ≡ a.spool)) [ none ↦ (refl, refl, refl) | some rs ↦ enqueue_records-fields rs a ]

-- What is left of the state once a batch is delivered: the greatest offset known of the batch is
-- marked, none of its ids is in flight and no other id is touched, and the rest of the queue still waits.
abbrev pub IsSettled : Env → App → List Event → App → Type 0
IsSettled env a order settled =
    (settled.spool ≡ elim (max_offset a.offset_by_id order) [
      | none ↦ a.spool
      | some offset ↦ Spool.mark_forwarded env.checkpoint_writable offset a.spool
    ])
    × ((id : String)
        → member id settled.inflight
          ≡ (member id a.inflight && not (exists (λ e. e.id == id) order)))
    × (settled.queue.ch ≡ a.queue.ch)
    × (settled.queue.stats.queued ≡ a.queue.stats.queued - length order)

-- How a round ends for a batch and the order it was sent in, by the answer of forwardBatch.
abbrev pub IsRound : Env → App → App → List Event → List Event → ℕ → Worker → Option String → Type 0
IsRound env a b batch order attempt v none =
    ((settled : App) × IsSettled env a order settled × (b ≡ (enqueue_pending env settled).0))
    × (v.pending ≡ [])
    × (v.attempt ≡ 0)
    × (b.queue.stats.forwarded ≡ a.queue.stats.forwarded + length batch)
    × (b.failed_batches ≡ a.failed_batches)
IsRound env a b batch order attempt v (some error) =
    (v.pending ≡ order)
    × (v.attempt ≡ attempt + 1)
    × (b.queue.stats.failed ≡ a.queue.stats.failed + length batch)
    × (b.failed_batches ≡ a.failed_batches + 1)
    × (b.last_hec_error ≡ error)
    × (b.spool ≡ a.spool)
    × (b.inflight ≡ a.inflight)

failed-IsRound :
    (env : Env) (error : String) (a : App) (batch order : List Event) (v : Worker)
    → v.pending ≡ order
    → length order ≡ length batch
    → let (b, u) = failed env error (a, v) in IsRound env a b batch order v.attempt u (some error)
unfolding failed Queue.mark_failure
failed-IsRound env error a batch order v same size =
    (same, refl, rw (same, size) refl, refl, refl, refl, refl)

marked-fields :
    (env : Env) (batch : List Event) (a : App)
    → ((mark_batch_forwarded env batch a).failed_batches ≡ a.failed_batches)
      × ((mark_batch_forwarded env batch a).queue ≡ a.queue)
      × ((mark_batch_forwarded env batch a).inflight ≡ a.inflight)
unfolding mark_batch_forwarded
marked-fields env batch a = ground arith

member-forgotten :
    (id : String) (batch : List Event) (ids : List String)
    → member id (discard_ids batch ids) ≡ (member id ids && not (exists (λ e. e.id == id) batch))
unfolding discard_ids
member-forgotten id [] ids = ground arith
member-forgotten id (e ∷ es) ids =
    ground (arith, member-forgotten id es (discard e.id ids), member-discard e.id id ids)

delivered-IsSettled :
    (env : Env) (a : App) (order : List Event) (v : Worker)
    → v.pending ≡ order
    → let m = record a { queue = Queue.mark_success (length v.pending) env.clock.text a.queue } in
      IsSettled env a order (forget_inflight v.pending (mark_batch_forwarded env v.pending m))
unfolding forget_inflight Queue.mark_success mark_batch_forwarded
delivered-IsSettled env a order v same =
    let m = record a { queue = Queue.mark_success (length order) env.clock.text a.queue } in
    let (failures, queue, flight) = marked-fields env order m in
    rw same (
      ground arith,
      (λ id.
          ap (λ l. member id (discard_ids order l)) flight ∙ member-forgotten id order a.inflight),
      ap (λ (q : Queue.Queue). q.ch) queue,
      ap (λ (q : Queue.Queue). q.stats.queued) queue,
    )

delivered-IsRound :
    (env : Env) (a : App) (batch order : List Event) (v : Worker)
    → v.pending ≡ order
    → length order ≡ length batch
    → let (b, u) = delivered env (a, v) in IsRound env a b batch order v.attempt u none
unfolding delivered forget_inflight Queue.mark_success
delivered-IsRound env a batch order v same size =
    let m = record a { queue = Queue.mark_success (length v.pending) env.clock.text a.queue } in
    let (failures, queue, flight) = marked-fields env v.pending m in
    let (failures', forwarded, spool) =
      enqueue_pending-fields env
        (forget_inflight v.pending (mark_batch_forwarded env v.pending m)) in
    (
      (
        forget_inflight v.pending (mark_batch_forwarded env v.pending m),
        delivered-IsSettled env a order v same,
        refl,
      ),
      refl,
      refl,
      forwarded
          ∙ ap (λ (q : Queue.Queue). q.stats.forwarded) queue
          ∙ ap (λ (l : List Event). a.queue.stats.forwarded + length l) same
          ∙ ap (λ (k : ℕ). a.queue.stats.forwarded + k) size,
      failures' ∙ failures,
    )

abbrev pub Sends :
    Env → Net → App → List Event → List Event → ℕ → List Event → App × Worker → Type 0
Sends env net a batch order attempt sent (b, v) =
    (v.sent ≡ sent ++ (forward_batch net a.fwd.cfg order).0)
    × IsSent net a.fwd.cfg order sent (forward_batch net a.fwd.cfg order).1 v.sent
    × IsRound env a b batch order attempt v (forward_batch net a.fwd.cfg order).1

send_round_lem :
    (env : Env) (net : Net) (a : App) (w : Worker)
    → a.fwd.cfg.syslog_forward_enabled ≡ true
    → Sends env net a w.pending (by_value w.pending) w.attempt w.sent (send_round env net (a, w))
unfolding send_round failed delivered
send_round_lem env net a w on =
    let order = by_value w.pending in
    let (out, answer) = forward_batch net a.fwd.cfg order in
    let v = record w { pending = order; sent = w.sent ++ out } in
    let size = (by_value-measure "" w.pending).1 in
    elim answer
        as (λ x.
          let (b, u) = elim x as (λ y. App × Worker) [
            | some error ↦ failed env error (a, v)
            | none ↦ delivered env (a, v)
          ] in
          IsSent net a.fwd.cfg order w.sent x (w.sent ++ out)
          → (u.sent ≡ w.sent ++ out)
            × IsSent net a.fwd.cfg order w.sent x u.sent
            × IsRound env a b w.pending order w.attempt u x) [
              | some error ↦
                  λ gone. (refl, gone, failed-IsRound env error a w.pending order v refl size)
              | none ↦ λ gone. (refl, gone, delivered-IsRound env a w.pending order v refl size)
            ]
      (batch-IsSent net a.fwd.cfg order w.sent on)

-- A round of the worker on a batch in hand, with forwarding on: the events of high value are sent
-- first, otherwise in order. If one is refused, those before it were sent, each without an error, and
-- the error is that of the refused one; the whole batch stays in hand, those already sent included,
-- the attempt is counted, the failure and its error are recorded, and neither the spool's checkpoint
-- nor the ids in flight change. If none is, the whole batch was sent, no batch is in hand, attempts
-- start again from 0, and the forwarded events are counted; the greatest offset known of the batch, if
-- any, is marked in the checkpoint, as far as that can be written; exactly the ids of the batch leave
-- the set in flight, the rest of the queue waits on, and then the records pending in the spool are
-- offered to the queue anew.
pub worker_round_lem :
    (env : Env) (net : Net) (n : ℕ) (a : App) (e : Event) (es : List Event) (attempt : ℕ)
    (sent : List Event)
    → is_forwarding_enabled a ≡ true
    → Sends env net a
        (e ∷ es)
        (ranked (e ∷ es))
        attempt
        sent
        (worker_round env net n (a, record { pending = e ∷ es; attempt = attempt; sent = sent }))
unfolding worker_round send_if_any refill is_forwarding_enabled Queue.set_paused
worker_round_lem env net n a e es attempt sent on =
    let b = record a { queue = Queue.set_paused a.fwd.cfg.paused a.queue } in
    rw on (
      subst
        (λ order.
          Sends env net a (e ∷ es) order attempt sent
            (send_round env net (b, record { pending = e ∷ es; attempt = attempt; sent = sent })))
        (ranked_lem (e ∷ es))
        (send_round_lem env net b (record { pending = e ∷ es; attempt = attempt; sent = sent })
          syslog))
  where
    syslog : a.fwd.cfg.syslog_forward_enabled ≡ true
    syslog = ground (arith, on)
