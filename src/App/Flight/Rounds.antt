-- ===== src/App/Flight/Rounds.antt =====
-- What a round of runForwardWorker of cmd/dmz-collector/main.go does to the events that wait.
use dmz_collector.Base.{
  ℕ, ap, String, List, [], ◌∷◌, ◌++◌, none, some, arith, length, length-append, Bool-cases, inl,
  inr,
}
use dmz_collector.Event.{Event}
use dmz_collector.Buffer.Queue
use dmz_collector.Buffer.Queue.Laws.{pop_batch_lem}
use dmz_collector.Forwarder.{Net}
use dmz_collector.App.{App, Env, is_forwarding_enabled}
use dmz_collector.App.Forward.{
  Worker, mark_batch_forwarded, forget_inflight, forward_batch, worker_round, discard_ids, refill,
  send_round, send_if_any, failed, delivered, by_value,
}
use dmz_collector.App.Flight.{member-discard_ids, by_value-measure, IsTracked, occurrences-append}
use dmz_collector.App.Flight.Moves.{
  SameFlight, SameFlight-IsTracked, enqueue_pending-IsTracked, paused-IsTracked,
}

pub refill-IsTracked :
    (id : String) (extra : ℕ) (n : ℕ) (a : App) (pending : List Event) (attempt : ℕ)
    (sent : List Event)
    → let w : Worker = record { pending = pending; attempt = attempt; sent = sent } in
      IsTracked id extra (a, w) → IsTracked id extra (refill n (a, w))
unfolding refill IsTracked
refill-IsTracked id extra n a [] attempt sent t =
    let (whole, size, stats, room) = pop_batch_lem n a.queue in rw (whole, stats) t
refill-IsTracked id extra n a (e ∷ es) attempt sent t = t

-- A batch put in order waits as it did.
ordered-IsTracked :
    (id : String) (extra : ℕ) (a : App) (w : Worker) (out : List Event)
    → IsTracked id extra (a, w)
    → IsTracked id extra (a, record w { pending = by_value w.pending; sent = w.sent ++ out })
unfolding IsTracked
ordered-IsTracked id extra a w out (few, count) =
    let (same, size) = by_value-measure id w.pending in
    let before = occurrences-append id w.pending a.queue.ch in
    let after = occurrences-append id (by_value w.pending) a.queue.ch in
    let long = length-append w.pending a.queue.ch in
    let sorted = length-append (by_value w.pending) a.queue.ch in (omega arith, omega arith)

failed-IsTracked :
    (id : String) (extra : ℕ) (env : Env) (error : String) (a : App) (w : Worker)
    → IsTracked id extra (a, w)
    → IsTracked id extra (failed env error (a, w))
unfolding failed IsTracked Queue.mark_failure
failed-IsTracked id extra env error a w t = t

marked-SameFlight :
    (env : Env) (batch : List Event) (a : App) → SameFlight a (mark_batch_forwarded env batch a)
unfolding mark_batch_forwarded
marked-SameFlight env batch a = ground arith

-- A batch that went out waits no more: its ids leave the set, and the counter falls by its size.
forgotten-IsTracked :
    (id : String) (extra : ℕ) (env : Env) (a : App) (w : Worker)
    → IsTracked id extra (a, w)
    → let q = Queue.mark_success (length w.pending) env.clock.text a.queue in
      IsTracked id extra (
        record a { queue = q; inflight = discard_ids w.pending a.inflight },
        record w { pending = []; attempt = 0 },
      )
unfolding IsTracked Queue.mark_success
forgotten-IsTracked id extra env a w (few, count) = ground (
  arith,
  member-discard_ids id w.pending a.inflight,
  occurrences-append id w.pending a.queue.ch,
  length-append w.pending a.queue.ch,
)

delivered-IsTracked :
    (id : String) (extra : ℕ) (env : Env) (a : App) (w : Worker)
    → IsTracked id extra (a, w)
    → IsTracked id extra (delivered env (a, w))
unfolding delivered forget_inflight
delivered-IsTracked id extra env a w t =
    let v = record w { pending = []; attempt = 0 } in
    let m = record a { queue = Queue.mark_success (length w.pending) env.clock.text a.queue } in
    let (queue, flight) = marked-SameFlight env w.pending m in
    let b = record m { inflight = discard_ids w.pending a.inflight } in
    let c = forget_inflight w.pending (mark_batch_forwarded env w.pending m) in
    enqueue_pending-IsTracked id extra env c v (
      SameFlight-IsTracked id extra b c v (queue, ap (discard_ids w.pending) flight)
        (forgotten-IsTracked id extra env a w t))

send_round-IsTracked :
    (id : String) (extra : ℕ) (env : Env) (net : Net) (a : App) (w : Worker)
    → IsTracked id extra (a, w)
    → IsTracked id extra (send_round env net (a, w))
unfolding send_round
send_round-IsTracked id extra env net a w t =
    let r = forward_batch net a.fwd.cfg (by_value w.pending) in
    let v = record w { pending = by_value w.pending; sent = w.sent ++ r.0 } in
    let u = ordered-IsTracked id extra a w r.0 t in
    elim r.1
      as (λ x. IsTracked id extra (elim x as (λ y. App × Worker) [
        | some error ↦ failed env error (a, v)
        | none ↦ delivered env (a, v)
      ])) [
        | some error ↦ failed-IsTracked id extra env error a v u
        | none ↦ delivered-IsTracked id extra env a v u
      ]

send_if_any-IsTracked :
    (id : String) (extra : ℕ) (env : Env) (net : Net) (a : App) (pending : List Event) (attempt : ℕ)
    (sent : List Event)
    → let w : Worker = record { pending = pending; attempt = attempt; sent = sent } in
      IsTracked id extra (a, w) → IsTracked id extra (send_if_any env net (a, w))
unfolding send_if_any
send_if_any-IsTracked id extra env net a [] attempt sent t = t
send_if_any-IsTracked id extra env net a (e ∷ es) attempt sent t =
    elim (Bool-cases (is_forwarding_enabled a)) [
      | inl on ↦ rw on (
          send_round-IsTracked id extra env net a
            (record { pending = e ∷ es; attempt = attempt; sent = sent }) t)
      | inr off ↦ rw off t
    ]

pub worker_round-IsTracked :
    (id : String) (extra : ℕ) (env : Env) (net : Net) (n : ℕ) (a : App) (w : Worker)
    → IsTracked id extra (a, w)
    → IsTracked id extra (worker_round env net n (a, w))
unfolding worker_round
worker_round-IsTracked id extra env net n a w t =
    let b = record a { queue = Queue.set_paused a.fwd.cfg.paused a.queue } in
    let (c, v) = refill n (b, w) in
    send_if_any-IsTracked id extra env net c v.pending v.attempt v.sent (
      refill-IsTracked id extra n b w.pending w.attempt w.sent
        (paused-IsTracked id extra a.fwd.cfg.paused a w t))
