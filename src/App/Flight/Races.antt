-- ===== src/App/Flight/Races.antt =====
-- enqueueIfNeeded of cmd/dmz-collector/main.go while other calls run: its test, its push and its mark
-- are critical sections of their own, and any number of calls may stand between them.
use dmz_collector.Base.{
  ℕ, ◌+◌, ◌≡◌, String, true, ◌&&◌, List, [], ◌∷◌, ◌++◌, member, if◌then◌else◌, ◌==◌,
}
use dmz_collector.Event.{Event}
use dmz_collector.Buffer.Queue
use dmz_collector.App.{App, may_enqueue, push_event, mark_inflight}
use dmz_collector.App.Forward.{Worker, refill}
use dmz_collector.App.Flight.{IsTracked}
use dmz_collector.App.Flight.Moves.{SameFlight}
use dmz_collector.App.Flight.Runs.{Step}

-- Calls of enqueueIfNeeded under way: the event and its offset.
abbrev pub Calls : Type 0
Calls = List (Event × ℕ)

-- The collector, the calls that have passed the test, and the calls that have pushed their event.
abbrev pub Live : Type 0
Live = (App × Worker) × Calls × Calls

-- One critical section, or one whole call or worker round. A round that others interrupt is a batch
-- taken, and later a round on the batch in hand; what a call does to the rest of the state is a step
-- elsewhere.
pub data Move : Live → Live → Type 0 where
  whole : {s t : App × Worker} (ts ps : Calls) → Step s t → Move (s, ts, ps) (t, ts, ps)
  elsewhere :
      (a b : App) (w : Worker) (ts ps : Calls)
      → SameFlight a b
      → Move ((a, w), ts, ps) ((b, w), ts, ps)
  takes :
      (batch_size : ℕ) (a : App) (w : Worker) (ts ps : Calls)
      → Move ((a, w), ts, ps) (refill batch_size (a, w), ts, ps)
  tests :
      (e : Event) (offset : ℕ) (a : App) (w : Worker) (ts ps : Calls)
      → may_enqueue a e ≡ true
      → Move ((a, w), ts, ps) ((a, w), (e, offset) ∷ ts, ps)
  pushes :
      (before after : Calls) (e : Event) (offset : ℕ) (a : App) (w : Worker) (ps : Calls)
      → Move
          ((a, w), before ++ (e, offset) ∷ after, ps)
          (
            ((push_event a e).0, w),
            before ++ after,
            (if (push_event a e).1 then (e, offset) ∷ ps else ps),
          )
  marks :
      (before after : Calls) (e : Event) (offset : ℕ) (a : App) (w : Worker) (ts : Calls)
      → Move
          ((a, w), ts, before ++ (e, offset) ∷ after)
          ((mark_inflight a e offset, w), ts, before ++ after)

-- A mark is late if it finds its id in flight already: another call was faster.
abbrev is_late : String → {l m : Live} → Move l m → ℕ
is_late id (marks before after e offset a w ts) =
    if (e.id == id) && member id a.inflight then 1 else 0
is_late id (whole ts ps s) = 0
is_late id (elsewhere a b w ts ps same) = 0
is_late id (takes n a w ts ps) = 0
is_late id (tests e offset a w ts ps free) = 0
is_late id (pushes before after e offset a w ps) = 0

-- The runs from a first state.
pub data Reaches (l : Live) : Live → Type 0 where
  here : Reaches l l
  next : {m n : Live} → Reaches l m → Move m n → Reaches l n

-- How many marks of an id were late in a run.
abbrev pub late : String → {l m : Live} → Reaches l m → ℕ
late id here = 0
late id (next r move) = late id r + is_late id move

-- How many calls have pushed an event of an id and not marked it yet.
abbrev pub unmarked : String → Calls → ℕ
unmarked id [] = 0
unmarked id ((e, offset) ∷ ps) = (if e.id == id then 1 else 0) + unmarked id ps

IsLive : String → ℕ → Live → Type 0
IsLive id x (s, ts, ps) = IsTracked id (x + unmarked id ps) s
