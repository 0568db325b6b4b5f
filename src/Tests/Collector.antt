-- ===== src/Tests/Collector.antt =====
-- What the theorems on the collector say of the one in miniature.
use dmz_collector.Base.{
  ℕ, ◌+◌, ◌<◌, ◌≤◌, true, false, not, ◌&&◌, List, [], ◌∷◌, ◌++◌, none, some, ◌≡◌, refl, All, member,
  length, ltb, if◌then◌else◌, lookup,
}
use dmz_collector.Event.{Event, to_map}
use dmz_collector.Disk.{lines_of, size_of, fits}
use dmz_collector.Normalizer.{ok, err, store_failed}
use dmz_collector.Buffer.Spool.{SpoolRecord}
use dmz_collector.Buffer.Spool
use dmz_collector.Stats
use dmz_collector.Storage
use dmz_collector.Hub.{publish}
use dmz_collector.App.{App, Env, take_in, ingest_batch, is_forwarding_enabled}
use dmz_collector.App.Ingest.{take_in_again, take_in_accepts}
use dmz_collector.App.Batch.{ingest_batch_lem}
use dmz_collector.App.Loss.{Within, take_in_lost, marked-pending}
use dmz_collector.App.Forward.{max_offset, mark_batch_forwarded, forward_batch, worker_round}
use dmz_collector.App.Delivery.{send, IsLeft, forward_batch_lem}
use dmz_collector.App.Delivery.Round.{ranked, Sends, worker_round_lem}
use dmz_collector.App.Start.{start}
use dmz_collector.Buffer.Queue
use dmz_collector.App.{push_event, mark_inflight}
use dmz_collector.Tests.{env, app, found, net, alarm, notice, codec, platform, evening, forwarding}

take_in_again_example :
    take_in env (record notice { id = "alarm-1" }) (take_in env alarm app).0
    ≡ ((take_in env alarm app).0, ok (false, false))
take_in_again_example = take_in_again env env alarm (record notice { id = "alarm-1" }) app refl

take_in_accepts_example :
    let (b, answer) = take_in env alarm app in
    let queues =
      is_forwarding_enabled app
      && not (member alarm.id app.inflight)
      && ltb (length app.queue.ch) app.queue.size in
    (answer ≡ ok (true, queues))
    × (b.queue.ch ≡ (if queues then app.queue.ch ++ alarm ∷ [] else app.queue.ch))
    × (b.inflight ≡ (if queues then alarm.id ∷ app.inflight else app.inflight))
    × (b.seen_ids ≡ alarm.id ∷ app.seen_ids)
    × (b.store
        ≡ some (lines_of app.store ++ codec.store_text (to_map alarm) alarm.original_raw ∷ []))
    × (b.spool.file
        ≡ some (
            lines_of app.spool.file
            ++ codec.spool_text (size_of (lines_of app.spool.file)) (to_map alarm) ∷ []))
    × (b.stats ≡ Stats.add platform env.clock alarm app.stats)
    × (b.hub ≡ publish alarm app.hub)
unfolding member
take_in_accepts_example = take_in_accepts env alarm app refl refl refl refl

abbrev full : Env
full = record env { store_writable = false }

abbrev arrivals : List (Env × Event)
arrivals = (env, alarm) ∷ (env, alarm) ∷ (full, notice) ∷ []

ingest_batch_lem_example :
    let (b, t) = ingest_batch arrivals app in
    (b.stats.total_received ≡ app.stats.total_received + t.accepted)
    × (t.queued ≤ t.accepted)
    × (t.accepted + t.rejected ≤ length arrivals)
    × (length t.errs ≡ t.rejected)
ingest_batch_lem_example = ingest_batch_lem arrivals app

-- A firewall event as the syslog receiver makes it: its original text is the line, not JSON.
abbrev line : Event
line = record alarm { original_raw = "<134>fw: DROP" }

take_in_lost_example :
    let (b, answer) = take_in env line app in
    let (c, retried) = take_in env alarm b in
    (answer ≡ err store_failed)
    × (retried ≡ ok (false, false))
    × (c.store ≡ app.store)
    × (c.spool ≡ app.spool)
unfolding member
take_in_lost_example = take_in_lost env env line alarm app refl refl refl

known : max_offset app.offset_by_id (alarm ∷ []) ≡ some 6
unfolding max_offset lookup
known = refl

none_left :
    Spool.load_pending codec platform evening true (mark_batch_forwarded env (alarm ∷ []) app).spool
    ≡ some []
unfolding Spool.load_pending mark_batch_forwarded Spool.mark_forwarded max_offset lookup fits
none_left = refl

marked-pending_example :
    Within app.offset_by_id 6 (alarm ∷ []) × All (λ (r : SpoolRecord). 6 < r.offset) []
marked-pending_example = marked-pending env (alarm ∷ []) app 6 [] known refl none_left

abbrev batch : List Event
batch = notice ∷ alarm ∷ []

forward_batch_lem_example :
    (rest : List Event) × ((forward_batch net forwarding batch).0 ++ rest ≡ batch)
    × All (λ e. send net forwarding e ≡ none) (forward_batch net forwarding batch).0
    × IsLeft net forwarding (forward_batch net forwarding batch).1 rest
forward_batch_lem_example = forward_batch_lem net forwarding batch refl

worker_round_lem_example :
    Sends env net app batch
      (ranked batch)
      2
      []
      (worker_round env net 50 (app, record { pending = batch; attempt = 2; sent = [] }))
unfolding is_forwarding_enabled
worker_round_lem_example = worker_round_lem env net 50 app notice (alarm ∷ []) 2 [] refl

-- Two calls pass the test for the same event before either has marked it: both push it, and the second
-- mark comes late.
abbrev begun : App
begun = start env found

abbrev once : App
once = (push_event begun alarm).0

abbrev twice : App
twice = (push_event once alarm).0

abbrev marked : App
marked = mark_inflight (mark_inflight twice alarm 6) alarm 6

abbrev call : Event × ℕ
call = (alarm, 6)
