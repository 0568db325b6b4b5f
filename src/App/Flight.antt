-- ===== src/App/Flight.antt =====
-- Which events of cmd/dmz-collector/main.go wait to be forwarded: those of the queue and those of
-- the batch that the worker holds, counted by id against the set of ids in flight.
pub mod Moves
pub mod Rounds
pub mod Runs
pub mod Races
use dmz_collector.Base.{
  ℕ, zero, suc, ◌+◌, ◌≤◌, ◌≡◌, refl, String, Bool, true, false, not, List, [], ◌∷◌, ◌++◌, none,
  some, arith, member, member-discard, discard, ◌-◌, length, length-append, keep, sort-partition,
  if◌then◌else◌, ◌==◌, eq_iff, append_assoc,
}
use dmz_collector.Event.{Event}
use dmz_collector.Stats.{has_high_value}
use dmz_collector.Buffer.Queue
use dmz_collector.Buffer.Queue.Laws.{pop_batch_lem}
use dmz_collector.App.{App, enqueue_if_needed}
use dmz_collector.App.Forward.{Worker, by_value, discard_ids, forget_inflight}

-- How many events of a list have an id.
abbrev pub occurrences : String → List Event → ℕ
occurrences id [] = 0
occurrences id (e ∷ es) = (if e.id == id then 1 else 0) + occurrences id es

pub occurrences-append :
    (id : String) (xs ys : List Event)
    → occurrences id (xs ++ ys) ≡ occurrences id xs + occurrences id ys
occurrences-append id [] ys = omega arith
occurrences-append id (x ∷ xs) ys = omega (arith, occurrences-append id xs ys)

partition-measure :
    (id : String) (p : Event → Bool) (xs : List Event)
    → (occurrences id (keep p xs ++ keep (λ x. not (p x)) xs) ≡ occurrences id xs)
      × (length (keep p xs ++ keep (λ x. not (p x)) xs) ≡ length xs)
partition-measure id p [] = (omega arith, omega arith)
partition-measure id p (x ∷ xs) =
    let no = λ (y : Event). not (p y) in
    ground (
      arith,
      partition-measure id p xs,
      occurrences-append id (keep p xs) (keep no xs),
      occurrences-append id (keep p xs) (x ∷ keep no xs),
      length-append (keep p xs) (keep no xs),
      length-append (keep p xs) (x ∷ keep no xs),
    )

-- Putting the batch in order keeps its events.
pub by_value-measure :
    (id : String) (xs : List Event)
    → (occurrences id (by_value xs) ≡ occurrences id xs) × (length (by_value xs) ≡ length xs)
by_value-measure id xs =
    rw (sort-partition has_high_value xs) (partition-measure id has_high_value xs)

abbrev pub waiting : App → Worker → List Event
waiting a w = w.pending ++ a.queue.ch

-- An id waits once if it is in flight, and at most so many times more; the queue's counter is what
-- waits.
pub IsTracked : String → ℕ → App × Worker → Type 0
IsTracked id extra (a, w) =
    (occurrences id (waiting a w) ≤ (if member id a.inflight then 1 else 0) + extra)
    × (a.queue.stats.queued ≡ length (waiting a w))

pub member-discard_ids :
    (id : String) (batch : List Event) (ids : List String)
    → (if member id (discard_ids batch ids) then 1 else 0)
      ≡ (if member id ids then (1 - occurrences id batch) else 0)
unfolding discard_ids
member-discard_ids id [] ids = ground arith
member-discard_ids id (e ∷ es) ids =
    ground (arith, member-discard_ids id es (discard e.id ids), member-discard e.id id ids)
