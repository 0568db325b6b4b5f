-- ===== src/Buffer/Queue.antt =====
-- internal/buffer/queue.go. A buffered channel is the list of its events, oldest first. Counters
-- are unbounded: 2^63 events do not pass through one process.
pub mod Laws
use dmz_collector.Base.{
  ℕ, zero, suc, ◌+◌, ◌-◌, String, Bool, true, false, List, [], ◌∷◌, ◌++◌, ltb, length,
  if◌then◌else◌,
}
use dmz_collector.Event.{Event}

pub record QueueStats : Type 0 where
  pub queued : ℕ
  pub forwarded : ℕ
  pub failed : ℕ
  pub last_success : String
  pub last_failure : String
  pub paused : Bool

pub record Queue : Type 0 where
  pub ch : List Event
  pub size : ℕ
  pub stats : QueueStats

unfoldable pub new_queue : ℕ → Queue
new_queue size = record {
  ch = [];
  size = if ltb size 100 then 100 else size;
  stats = record {
    queued = 0;
    forwarded = 0;
    failed = 0;
    last_success = "";
    last_failure = "";
    paused = false;
  };
}

-- A send that would block is given up.
unfoldable pub push : Queue → Event → Queue × Bool
push q e =
    if ltb (length q.ch) q.size
    then (
      record q { ch = q.ch ++ e ∷ []; stats = record q.stats { queued = q.stats.queued + 1 } },
      true,
    )
    else (q, false)

-- The receives after the first: at most `n`, until one would block.
drain : ℕ → List Event → List Event × List Event
drain zero ch = ([], ch)
drain (suc n) [] = ([], [])
drain (suc n) (e ∷ ch) = let (batch, rest) = drain n ch in (e ∷ batch, rest)

-- `popOne` times out on an empty channel; an event that arrives while it waits is a push before.
unfoldable pub pop_batch : ℕ → Queue → List Event × Queue
unfolding drain
pop_batch max q =
    let (batch, rest) = drain (at_least_one max) q.ch in (batch, record q { ch = rest })
  where
    at_least_one : ℕ → ℕ
    at_least_one zero = 1
    at_least_one (suc n) = suc n

-- `-` stops at 0, as the method does.
unfoldable pub mark_success : ℕ → String → Queue → Queue
mark_success n when q = record q {
  stats = record q.stats {
    queued = q.stats.queued - n;
    forwarded = q.stats.forwarded + n;
    last_success = when;
  };
}

unfoldable pub mark_failure : ℕ → String → Queue → Queue
mark_failure n when q = record q {
  stats = record q.stats { failed = q.stats.failed + n; last_failure = when };
}

unfoldable pub set_paused : Bool → Queue → Queue
set_paused v q = record q { stats = record q.stats { paused = v } }

abbrev pub is_paused : Queue → Bool
is_paused q = q.stats.paused
