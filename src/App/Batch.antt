-- ===== src/App/Batch.antt =====
-- IngestBatch of cmd/dmz-collector/main.go: the three counts and the errors.
use dmz_collector.Base.{
  ℕ, ◌+◌, ◌≤◌, ◌≡◌, inl, inr, refl, Bool, true, false, List, [], ◌∷◌, arith, member, length,
  length-append, Bool-cases, if◌then◌else◌,
}
use dmz_collector.Event.{Event}
use dmz_collector.Normalizer.{Result, ok, err, validate_and_normalize, enrich_dmz}
use dmz_collector.Stats.Counts.{add-total}
use dmz_collector.Disk.{lines_of, size_of}
use dmz_collector.App.{
  is_forwarding_enabled, App, Env, enqueue_if_needed, noted, accept, spooled, take_in, ingest_one,
  Tally, tally, ingest_from, ingest_batch, no_tally,
}
use dmz_collector.App.Ingest.{stored-cases, spooled-cases, store_after, spool_after}

abbrev pub accepted_of : Result (Bool × Bool) → ℕ
accepted_of (err e) = 0
accepted_of (ok (accepted, queued)) = if accepted then 1 else 0

abbrev queued_of : Result (Bool × Bool) → ℕ
queued_of (err e) = 0
queued_of (ok (accepted, queued)) = if queued then 1 else 0

-- An answer adds as many events to the total as it accepts, at most one, and queues no other.
abbrev pub IsAnswer : ℕ → App × Result (Bool × Bool) → Type 0
IsAnswer total r =
    (r.0.stats.total_received ≡ total + accepted_of r.1)
    × (queued_of r.1 ≤ accepted_of r.1)
    × (accepted_of r.1 ≤ 1)

enqueue-stats : (a : App) (e : Event) (o : ℕ) → (enqueue_if_needed a e o).0.stats ≡ a.stats
unfolding enqueue_if_needed
enqueue-stats a e o = ground arith

noted-total :
    (env : Env) (e : Event) (o : ℕ) (a : App)
    → (noted env e o a).stats.total_received ≡ a.stats.total_received + 1
unfolding noted
noted-total env e o a = ground (arith, add-total env.platform env.clock e a.stats)

accept-answer :
    (env : Env) (e : Event) (o : ℕ) (a : App)
    → (queued : Bool) × ((accept env e o a).1 ≡ ok (true, queued))
      × ((accept env e o a).0.stats.total_received ≡ a.stats.total_received + 1)
unfolding accept
accept-answer env e o a =
    let b = noted env e o a in
    let total = noted-total env e o a in
    elim (Bool-cases (is_forwarding_enabled b)) [
      | inl on ↦ (
        (enqueue_if_needed b e o).1,
        rw (on, accept) refl,
        ground (arith, total, enqueue-stats b e o),
      )
      | inr off ↦ (false, rw (off, accept) refl, ground (arith, total))
    ]

accept-IsAnswer :
    (env : Env) (e : Event) (o : ℕ) (a : App) → IsAnswer a.stats.total_received (accept env e o a)
accept-IsAnswer env e o a =
    let (queued, answer, total) = accept-answer env e o a in rw answer (ground (arith, total))

spooled-IsAnswer :
    (env : Env) (e : Event) (a : App) → IsAnswer a.stats.total_received (spooled env e a)
spooled-IsAnswer env e a = elim (spooled-cases env e a) [
  | inl (_, good) ↦
      rw good (accept-IsAnswer env e (size_of (lines_of a.spool.file)) (spool_after env e a))
  | inr (_, bad) ↦ rw bad (omega arith, omega arith, omega arith)
]

take_in-IsAnswer :
    (env : Env) (e : Event) (a : App) → IsAnswer a.stats.total_received (take_in env e a)
unfolding take_in
take_in-IsAnswer env e a =
    let b = record a { seen_ids = e.id ∷ a.seen_ids } in
    elim (Bool-cases (member e.id a.seen_ids)) [
      | inl known ↦ rw known (omega arith, omega arith, omega arith)
      | inr new ↦ rw new (elim (stored-cases env e b) [
        | inl (_, good) ↦ rw good (spooled-IsAnswer env e (store_after env e b))
        | inr (_, bad) ↦ rw bad (omega arith, omega arith, omega arith)
      ])
    ]

pub ingest_one-IsAnswer :
    (env : Env) (e : Event) (a : App) → IsAnswer a.stats.total_received (ingest_one env e a)
unfolding ingest_one
ingest_one-IsAnswer env e a =
    elim (validate_and_normalize env.platform env.clock.text e)
      as (λ r.
        IsAnswer a.stats.total_received
          (elim r [ err x ↦ (a, err x) | ok ev ↦ take_in env (enrich_dmz env.clock.text ev) a ])) [
            | err x ↦ (omega arith, omega arith, omega arith)
            | ok ev ↦ take_in-IsAnswer env (enrich_dmz env.clock.text ev) a
          ]

tally_lem :
    (r : Result (Bool × Bool)) (t : Tally)
    → ((tally r t).accepted ≡ t.accepted + accepted_of r)
      × ((tally r t).queued ≡ t.queued + queued_of r)
      × ((tally r t).accepted + (tally r t).rejected ≤ t.accepted + t.rejected + 1)
      × (length (tally r t).errs + t.rejected ≡ (tally r t).rejected + length t.errs)
unfolding tally
tally_lem (err e) t = ground (arith, length-append t.errs (e ∷ []))
tally_lem (ok (accepted, queued)) t = ground arith

-- What a batch adds to a tally and to the total of the statistics.
abbrev IsBatch : Tally → ℕ → ℕ → App × Tally → Type 0
IsBatch t total n r =
    (r.0.stats.total_received + t.accepted ≡ total + r.1.accepted)
    × (r.1.queued + t.accepted ≤ r.1.accepted + t.queued)
    × (r.1.accepted + r.1.rejected ≤ t.accepted + t.rejected + n)
    × (length r.1.errs + t.rejected ≡ r.1.rejected + length t.errs)

ingest_from-IsBatch :
    (t : Tally) (es : List (Env × Event)) (a : App)
    → IsBatch t a.stats.total_received (length es) (ingest_from t es a)
unfolding ingest_from
ingest_from-IsBatch t [] a = (omega arith, omega arith, omega arith, omega arith)
ingest_from-IsBatch t ((env, e) ∷ es) a =
    let r = ingest_one env e a in
    let (here, kept, one) = ingest_one-IsAnswer env e a in
    let (accepted, queued, both, errs) = tally_lem r.1 t in
    let (total, few, most, known) = ingest_from-IsBatch (tally r.1 t) es r.0 in
    (omega arith, omega arith, omega arith, omega arith)

-- A batch, whatever each of its events meets, accepts or rejects no more events than it has; there
-- is one error for each that it rejects; it queues only events that it accepts; and the total of
-- the statistics grows by exactly the number that it accepts.
pub ingest_batch_lem :
    (es : List (Env × Event)) (a : App)
    → let (b, t) = ingest_batch es a in
      (b.stats.total_received ≡ a.stats.total_received + t.accepted)
      × (t.queued ≤ t.accepted)
      × (t.accepted + t.rejected ≤ length es)
      × (length t.errs ≡ t.rejected)
unfolding ingest_batch
ingest_batch_lem es a =
    let (total, few, most, known) = ingest_from-IsBatch no_tally es a in
    (omega arith, omega arith, omega arith, omega arith)
