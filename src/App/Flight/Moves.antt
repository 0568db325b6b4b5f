-- ===== src/App/Flight/Moves.antt =====
-- What each step of cmd/dmz-collector/main.go does to the events that wait.
use dmz_collector.Base.{
  ℕ, ◌≡◌, refl, String, Bool, not, ◌&&◌, ◌||◌, List, [], ◌∷◌, ◌++◌, none, some, arith, member,
  length-append, eq_iff, Bool-cases, inl, inr,
}
use dmz_collector.Event.{Event}
use dmz_collector.Buffer.Queue
use dmz_collector.Buffer.Spool.{SpoolRecord}
use dmz_collector.Buffer.Spool
use dmz_collector.Config.{ForwardingConfig, Write, replace}
use dmz_collector.Normalizer.{Result, ok, err, validate_and_normalize, enrich_dmz}
use dmz_collector.App.{
  App, Env, enqueue_if_needed, noted, accept, take_in, ingest_one, mark_inflight, may_enqueue,
  push_event, dispatch_splunk_forward, is_forwarding_enabled,
}
use dmz_collector.App.Forward.{
  Worker, enqueue_records, enqueue_pending, forward_splunk_async, record_splunk_attempt,
  SplunkResult, update_forwarding_config,
}
use dmz_collector.App.Ingest.{stored-cases, spooled-cases, store_after, spool_after}
use dmz_collector.Disk.{lines_of, size_of}
use dmz_collector.App.Flight.{IsTracked, occurrences-append}

-- What another part of the state says is all one for the events that wait.
abbrev pub SameFlight : App → App → Type 0
SameFlight a b = (b.queue ≡ a.queue) × (b.inflight ≡ a.inflight)

pub SameFlight-IsTracked :
    (id : String) (extra : ℕ) (a b : App) (w : Worker)
    → SameFlight a b
    → IsTracked id extra (a, w)
    → IsTracked id extra (b, w)
unfolding IsTracked
SameFlight-IsTracked id extra a b w (q, f) t = ground (arith)

enqueue-IsTracked :
    (id : String) (extra : ℕ) (a : App) (e : Event) (o : ℕ) (w : Worker)
    → IsTracked id extra (a, w)
    → IsTracked id extra ((enqueue_if_needed a e o).0, w)
unfolding IsTracked enqueue_if_needed Queue.push mark_inflight may_enqueue push_event member
enqueue-IsTracked id extra a e o w (few, count) = ground (
  arith,
  eq_iff e.id id,
  occurrences-append id w.pending a.queue.ch,
  occurrences-append id w.pending (a.queue.ch ++ e ∷ []),
  occurrences-append id a.queue.ch (e ∷ []),
  length-append w.pending a.queue.ch,
  length-append w.pending (a.queue.ch ++ e ∷ []),
  length-append a.queue.ch (e ∷ []),
)

pub enqueue_records-IsTracked :
    (id : String) (extra : ℕ) (rs : List SpoolRecord) (a : App) (w : Worker)
    → IsTracked id extra (a, w)
    → IsTracked id extra ((enqueue_records rs a).0, w)
unfolding enqueue_records
enqueue_records-IsTracked id extra [] a w t = t
enqueue_records-IsTracked id extra (r ∷ rs) a w t =
    enqueue_records-IsTracked id extra rs (enqueue_if_needed a r.event r.offset).0 w
      (enqueue-IsTracked id extra a r.event r.offset w t)

pub enqueue_pending-IsTracked :
    (id : String) (extra : ℕ) (env : Env) (a : App) (w : Worker)
    → IsTracked id extra (a, w)
    → IsTracked id extra ((enqueue_pending env a).0, w)
unfolding enqueue_pending
enqueue_pending-IsTracked id extra env a w t =
    elim (Spool.load_pending env.codec env.platform env.clock.text env.spool_readable a.spool)
      as (λ r.
        IsTracked id extra
          ((elim r as (λ x. App × ℕ) [ none ↦ (a, 0) | some rs ↦ enqueue_records rs a ]).0, w)) [
            | none ↦ t
            | some rs ↦ enqueue_records-IsTracked id extra rs a w t
          ]

noted-SameFlight : (env : Env) (e : Event) (o : ℕ) (a : App) → SameFlight a (noted env e o a)
unfolding noted dispatch_splunk_forward
noted-SameFlight env e o a = ground arith

accept-IsTracked :
    (id : String) (extra : ℕ) (env : Env) (e : Event) (o : ℕ) (a : App) (w : Worker)
    → IsTracked id extra (a, w)
    → IsTracked id extra ((accept env e o a).0, w)
unfolding accept
accept-IsTracked id extra env e o a w t =
    let b = noted env e o a in
    let u = SameFlight-IsTracked id extra a b w (noted-SameFlight env e o a) t in
    elim (Bool-cases (is_forwarding_enabled b)) [
      | inl on ↦ rw on (enqueue-IsTracked id extra b e o w u)
      | inr off ↦ rw off u
    ]

-- Taking an event in keeps what waits in step with what is in flight, under whatever outcome.
pub take_in-IsTracked :
    (id : String) (extra : ℕ) (env : Env) (e : Event) (a : App) (w : Worker)
    → IsTracked id extra (a, w)
    → IsTracked id extra ((take_in env e a).0, w)
unfolding take_in
take_in-IsTracked id extra env e a w t =
    let b = record a { seen_ids = e.id ∷ a.seen_ids } in
    let c = store_after env e b in
    let u = SameFlight-IsTracked id extra a b w (refl, refl) t in
    let v = SameFlight-IsTracked id extra a c w (refl, refl) t in
    let x = SameFlight-IsTracked id extra a (spool_after env e c) w (refl, refl) t in
    elim (Bool-cases (member e.id a.seen_ids)) [
      | inl known ↦ rw known t
      | inr new ↦ rw new (elim (stored-cases env e b) [
        | inr (_, bad) ↦ rw bad u
        | inl (_, good) ↦ rw good (elim (spooled-cases env e c) [
          | inr (_, bad) ↦ rw bad v
          | inl (_, fine) ↦ rw fine (
              accept-IsTracked id extra env e (size_of (lines_of a.spool.file))
                (spool_after env e c) w x)
        ])
      ])
    ]

pub ingest_one-IsTracked :
    (id : String) (extra : ℕ) (env : Env) (e : Event) (a : App) (w : Worker)
    → IsTracked id extra (a, w)
    → IsTracked id extra ((ingest_one env e a).0, w)
unfolding ingest_one
ingest_one-IsTracked id extra env e a w t =
    elim (validate_and_normalize env.platform env.clock.text e)
      as (λ r. IsTracked id extra (
        (elim r as (λ x. App × Result (Bool × Bool)) [
          | err x ↦ (a, err x)
          | ok ev ↦ take_in env (enrich_dmz env.clock.text ev) a
        ]).0,
        w,
      )) [ err x ↦ t | ok ev ↦ take_in-IsTracked id extra env (enrich_dmz env.clock.text ev) a w t ]

pub paused-IsTracked :
    (id : String) (extra : ℕ) (v : Bool) (a : App) (w : Worker)
    → IsTracked id extra (a, w)
    → IsTracked id extra (record a { queue = Queue.set_paused v a.queue }, w)
unfolding IsTracked Queue.set_paused
paused-IsTracked id extra v a w t = t

pub splunk-IsTracked :
    (id : String) (extra : ℕ) (env : Env) (n : ℕ) (r : SplunkResult) (a : App) (w : Worker)
    → IsTracked id extra (a, w)
    → IsTracked id extra (forward_splunk_async env n r a, w)
unfolding forward_splunk_async record_splunk_attempt IsTracked
splunk-IsTracked id extra env n r a w t = ground arith

pub update-IsTracked :
    (id : String) (extra : ℕ) (env : Env) (answer : Write) (cfg : ForwardingConfig) (a : App)
    (w : Worker)
    → IsTracked id extra (a, w)
    → IsTracked id extra ((update_forwarding_config env answer cfg a).0, w)
unfolding update_forwarding_config
update-IsTracked id extra env answer cfg a w t =
    let b = record a { fwd = (replace env.config answer cfg a.fwd).1 } in
    let c = record b { queue = Queue.set_paused cfg.paused b.queue } in
    let resumed = not cfg.paused && (cfg.splunk_enabled || cfg.syslog_forward_enabled) in
    let u =
      paused-IsTracked id extra cfg.paused b w
        (SameFlight-IsTracked id extra a b w (refl, refl) t) in
    elim (Bool-cases (replace env.config answer cfg a.fwd).0) [
      | inl persisted ↦ rw persisted (elim (Bool-cases resumed) [
        | inl on ↦ rw on (enqueue_pending-IsTracked id extra env c w u)
        | inr off ↦ rw off u
      ])
      | inr unpersisted ↦ rw unpersisted (SameFlight-IsTracked id extra a b w (refl, refl) t)
    ]
