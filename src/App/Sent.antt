-- ===== src/App/Sent.antt =====
-- What one round of the worker of cmd/dmz-collector/main.go sends to a receiver that refuses nothing.
use dmz_collector.Base.{
  ℕ, ◌+◌, ◌≡◌, refl, String, true, List, [], ◌∷◌, ◌++◌, Option, none, some, arith, sym, ap, subst,
  length, not, ◌&&◌,
}
use dmz_collector.Event.{Event}
use dmz_collector.Config.{ForwardingConfig, ForwardingStore}
use dmz_collector.Forwarder.{Net}
use dmz_collector.Buffer.Queue
use dmz_collector.App.{App, Env, is_forwarding_enabled}
use dmz_collector.App.Forward.{
  Worker, by_value, forward_batch, mark_batch_forwarded, forget_inflight, enqueue_pending, failed,
  delivered, send_round, refill, send_if_any, worker_round,
}
use dmz_collector.App.Delivery.{send}
use dmz_collector.App.Flight.{occurrences, occurrences-append, by_value-measure}
use dmz_collector.App.Growth.{Grown, Grown-refl, Grown-from, enqueue_pending-Grown}

-- A receiver that refuses nothing under a configuration.
abbrev pub Takes : Net → ForwardingConfig → Type 0
Takes net cfg = (e : Event) → send net cfg e ≡ none

forward_batch-all :
    (net : Net) (cfg : ForwardingConfig) (batch : List Event)
    → cfg.syslog_forward_enabled ≡ true
    → Takes net cfg
    → forward_batch net cfg batch ≡ (batch, none)
unfolding forward_batch
forward_batch-all net cfg [] on takes = refl
forward_batch-all net cfg (e ∷ es) on takes =
    rw (on, takes e, forward_batch-all net cfg es on takes) refl

-- After a round that had a batch in hand it was sent, and the queue has at most grown.
pub record Sent (a : App) (batch sent : List Event) (s : App × Worker) : Type 0 where
  pub grown : Grown a s.0
  pub pending : s.1.pending ≡ []
  pub sent_all :
      (id : String) → occurrences id s.1.sent ≡ occurrences id sent + occurrences id batch

marked-kept :
    (env : Env) (batch : List Event) (a : App)
    → ((mark_batch_forwarded env batch a).queue ≡ a.queue)
      × ((mark_batch_forwarded env batch a).fwd ≡ a.fwd)
unfolding mark_batch_forwarded
marked-kept env batch a = ground arith

delivered-Sent :
    (env : Env) (a : App) (batch sent : List Event) (attempt : ℕ)
    → Sent a batch sent
        (delivered env (a, record { pending = batch; attempt = attempt; sent = sent ++ batch }))
unfolding delivered forget_inflight Queue.mark_success
delivered-Sent env a batch sent attempt =
    let marked = record a { queue = Queue.mark_success (length batch) env.clock.text a.queue } in
    let b = forget_inflight batch (mark_batch_forwarded env batch marked) in
    let (queue, fwd) = marked-kept env batch marked in
    record {
      grown =
          Grown-from a b (enqueue_pending env b).0 (ap (λ (q : Queue.Queue). q.ch) queue) fwd
            (enqueue_pending-Grown env b);
      pending = refl;
      sent_all = λ id. occurrences-append id sent batch;
    }

send_round-Sent :
    (env : Env) (net : Net) (a : App) (w : Worker)
    → a.fwd.cfg.syslog_forward_enabled ≡ true
    → Takes net a.fwd.cfg
    → Sent a (by_value w.pending) w.sent (send_round env net (a, w))
unfolding send_round
send_round-Sent env net a w on takes =
    let batch = by_value w.pending in
    subst
      (λ (r : List Event × Option String).
        let v = record w { pending = batch; sent = w.sent ++ r.0 } in
        Sent a batch w.sent (elim r.1 as (λ y. App × Worker) [
          | some error ↦ failed env error (a, v)
          | none ↦ delivered env (a, v)
        ]))
      (sym (forward_batch-all net a.fwd.cfg batch on takes))
      (delivered-Sent env a batch w.sent w.attempt)

by_value-Sent :
    (a : App) (batch sent : List Event) (s : App × Worker)
    → Sent a (by_value batch) sent s
    → Sent a batch sent s
by_value-Sent a batch sent s r = record {
  grown = r.grown;
  pending = r.pending;
  sent_all = λ id. omega (arith, r.sent_all id, by_value-measure id batch);
}

forwards_syslog :
    (a : App) → is_forwarding_enabled a ≡ true → a.fwd.cfg.syslog_forward_enabled ≡ true
unfolding is_forwarding_enabled
forwards_syslog a on = ground arith

send_if_any-Sent :
    (env : Env) (net : Net) (a : App) (pending : List Event) (attempt : ℕ) (sent : List Event)
    → is_forwarding_enabled a ≡ true
    → Takes net a.fwd.cfg
    → Sent a pending sent
        (send_if_any env net (a, record { pending = pending; attempt = attempt; sent = sent }))
unfolding send_if_any
send_if_any-Sent env net a [] attempt sent on takes = record {
  grown = Grown-refl a;
  pending = refl;
  sent_all = λ id. omega arith;
}
send_if_any-Sent env net a (e ∷ es) attempt sent on takes =
    let w : Worker = record { pending = e ∷ es; attempt = attempt; sent = sent } in
    rw on (
      by_value-Sent a (e ∷ es) sent (send_round env net (a, w))
        (send_round-Sent env net a w (forwards_syslog a on) takes))

abbrev pub unpaused : App → Queue.Queue
unpaused a = Queue.set_paused a.fwd.cfg.paused a.queue

-- A round of a worker without a batch in hand sends the batch that it takes.
pub idle-Sent :
    (env : Env) (net : Net) (n : ℕ) (a : App) (w : Worker)
    → is_forwarding_enabled a ≡ true
    → Takes net a.fwd.cfg
    → w.pending ≡ []
    → let (batch, q) = Queue.pop_batch n (unpaused a) in
      Sent (record a { queue = q }) batch w.sent (worker_round env net n (a, w))
unfolding worker_round refill is_forwarding_enabled
idle-Sent env net n a w on takes idle =
    let (batch, q) = Queue.pop_batch n (unpaused a) in
    subst
      (λ (pending : List Event).
        Sent (record a { queue = q }) batch w.sent
          (worker_round env net n
            (a, record { pending = pending; attempt = w.attempt; sent = w.sent })))
      (sym idle) (send_if_any-Sent env net (record a { queue = q }) batch w.attempt w.sent on takes)

-- A round of a worker with a batch in hand sends it.
pub held-Sent :
    (env : Env) (net : Net) (n : ℕ) (a : App) (w : Worker) (e : Event) (es : List Event)
    → is_forwarding_enabled a ≡ true
    → Takes net a.fwd.cfg
    → w.pending ≡ e ∷ es
    → Sent (record a { queue = unpaused a }) (e ∷ es) w.sent (worker_round env net n (a, w))
unfolding worker_round refill is_forwarding_enabled
held-Sent env net n a w e es on takes held =
    subst
      (λ (pending : List Event).
        Sent (record a { queue = unpaused a }) (e ∷ es) w.sent
          (worker_round env net n
            (a, record { pending = pending; attempt = w.attempt; sent = w.sent })))
      (sym held)
      (send_if_any-Sent env net (record a { queue = unpaused a }) (e ∷ es) w.attempt w.sent on
        takes)

pub still_forwards :
    (a b : App) → b.fwd ≡ a.fwd → is_forwarding_enabled a ≡ true → is_forwarding_enabled b ≡ true
unfolding is_forwarding_enabled
still_forwards a b same on =
    subst (λ (f : ForwardingStore). not f.cfg.paused && f.cfg.syslog_forward_enabled ≡ true)
      (sym same) on
