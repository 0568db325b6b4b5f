-- ===== src/App/Ingest.antt =====
-- What ingestOne and IngestBatch of cmd/dmz-collector/main.go do with an event.
use dmz_collector.Base.{
  not, ltb, ℕ, ◌≡◌, ◌⊎◌, Bool, true, false, ◌&&◌, ◌||◌, if◌then◌else◌, [], ◌∷◌, ◌++◌, some, arith,
  member, length, eq_refl, ◌==◌,
}
use dmz_collector.Event.{Event, to_map}
use dmz_collector.Normalizer.{ok, err, store_failed, spool_failed}
use dmz_collector.Disk.{lines_of, size_of, append_line}
use dmz_collector.Buffer.Queue
use dmz_collector.Buffer.Spool
use dmz_collector.Storage
use dmz_collector.Stats
use dmz_collector.Hub.{publish}
use dmz_collector.App.{
  is_forwarding_enabled, App, Env, enqueue_if_needed, mark_inflight, may_enqueue, push_event, noted,
  accept, stored, spooled, take_in,
}

-- What the later steps of taking an event in leave alone.
abbrev SameDisk : App → App → Type 0
SameDisk a b =
    (b.seen_ids ≡ a.seen_ids) × (b.store ≡ a.store) × (b.spool ≡ a.spool) × (b.fwd ≡ a.fwd)

enqueue-SameDisk : (a : App) (e : Event) (o : ℕ) → SameDisk a (enqueue_if_needed a e o).0
unfolding enqueue_if_needed
enqueue-SameDisk a e o = ground arith

noted-SameDisk : (env : Env) (e : Event) (o : ℕ) (a : App) → SameDisk a (noted env e o a)
unfolding noted
noted-SameDisk env e o a = ground arith

accept-SameDisk : (env : Env) (e : Event) (o : ℕ) (a : App) → SameDisk a (accept env e o a).0
unfolding accept
accept-SameDisk env e o a =
    ground (arith, noted-SameDisk env e o a, enqueue-SameDisk (noted env e o a) e o)

abbrev pub spool_after : Env → Event → App → App
spool_after env e a =
    let offset = size_of (lines_of a.spool.file) in
    record a {
      spool = record a.spool {
        file = append_line a.spool.file (env.codec.spool_text offset (to_map e));
      };
    }

-- Spooling an event either fails or appends a line under the file's size and goes on.
pub spooled-cases :
    (env : Env) (e : Event) (a : App)
    → ((env.spool_writable ≡ true)
        × (spooled env e a ≡ accept env e (size_of (lines_of a.spool.file)) (spool_after env e a)))
      ⊎ ((env.spool_writable ≡ false) × (spooled env e a ≡ (a, err spool_failed)))
unfolding spooled Spool.append
spooled-cases env e a = ground arith

abbrev pub store_after : Env → Event → App → App
store_after env e a = record a {
  store = append_line a.store (env.codec.store_text (to_map e) e.original_raw);
}

-- An event can be stored: it has no original text, or one that is JSON.
abbrev pub is_storable : Env → Event → Bool
is_storable env e = (e.original_raw == "") || env.codec.is_json e.original_raw

-- Storing an event either fails or appends a line and goes on.
pub stored-cases :
    (env : Env) (e : Event) (a : App)
    → ((is_storable env e && env.store_writable ≡ true)
        × (stored env e a ≡ spooled env e (store_after env e a)))
      ⊎ ((is_storable env e && env.store_writable ≡ false)
          × (stored env e a ≡ (a, err store_failed)))
unfolding stored Storage.append
stored-cases env e a = ground arith

stored-seen : (env : Env) (e : Event) (a : App) → (stored env e a).0.seen_ids ≡ a.seen_ids
stored-seen env e a =
    let b = store_after env e a in
    ground (
      arith,
      stored-cases env e a,
      spooled-cases env e b,
      accept-SameDisk env e (size_of (lines_of a.spool.file)) (spool_after env e b),
    )

-- An event taken in is known by its id from then on, under whatever outcome.
take_in-member : (env : Env) (e : Event) (a : App) → member e.id (take_in env e a).0.seen_ids ≡ true
unfolding take_in member
take_in-member env e a =
    ground (arith, eq_refl e.id, stored-seen env e (record a { seen_ids = e.id ∷ a.seen_ids }))

-- Once an event was taken in, under whatever outcome, a second event under its id changes nothing
-- and is answered as neither accepted nor queued, without an error.
pub take_in_again :
    (env later : Env) (e f : Event) (a : App)
    → f.id ≡ e.id
    → take_in later f (take_in env e a).0 ≡ ((take_in env e a).0, ok (false, false))
unfolding take_in
take_in_again env later e f a same = let known = take_in-member env e a in ground arith

-- An id that was not seen, on a store that can be written and with an original text that is JSON or
-- absent, on a spool that can be written: the event is accepted. It is then the last line of the
-- store and of the spool, there under the size that the spool had; it is known, counted and
-- published; and it goes to the end of the queue, and its id among those in flight, exactly if
-- forwarding is on, no event under its id is in flight, and the queue has room, which is the answer;
-- otherwise the queue and the ids in flight are left as they are.
pub take_in_accepts :
    (env : Env) (e : Event) (a : App)
    → member e.id a.seen_ids ≡ false
    → is_storable env e ≡ true
    → env.store_writable ≡ true
    → env.spool_writable ≡ true
    → let (b, answer) = take_in env e a in
      let queues =
        is_forwarding_enabled a
        && not (member e.id a.inflight)
        && ltb (length a.queue.ch) a.queue.size in
      (answer ≡ ok (true, queues))
      × (b.queue.ch ≡ (if queues then a.queue.ch ++ e ∷ [] else a.queue.ch))
      × (b.inflight ≡ (if queues then e.id ∷ a.inflight else a.inflight))
      × (b.seen_ids ≡ e.id ∷ a.seen_ids)
      × (b.store ≡ some (lines_of a.store ++ env.codec.store_text (to_map e) e.original_raw ∷ []))
      × (b.spool.file
          ≡ some (
              lines_of a.spool.file
              ++ env.codec.spool_text (size_of (lines_of a.spool.file)) (to_map e) ∷ []))
      × (b.stats ≡ Stats.add env.platform env.clock e a.stats)
      × (b.hub ≡ publish e a.hub)
unfolding take_in stored spooled Storage.append Spool.append accept noted enqueue_if_needed
    Queue.push is_forwarding_enabled mark_inflight may_enqueue push_event
take_in_accepts env e a new storable st sp = ground arith
