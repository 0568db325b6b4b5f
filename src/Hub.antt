-- ===== src/Hub.antt =====
-- internal/api/stream.go: the subscribers of the event stream. A buffered channel is the list of its
-- events, oldest first.
pub mod Streams
use dmz_collector.Base.{ℕ, suc, ◌+◌, String, List, [], ◌∷◌, ◌++◌, ltb, eqb, length, if◌then◌else◌}
use dmz_collector.Event.{Event}

pub record Client : Type 0 where
  pub id : ℕ
  pub ch : List Event

pub record StreamHub : Type 0 where
  pub next_id : ℕ
  pub clients : List Client

unfoldable pub new_stream_hub : StreamHub
new_stream_hub = record { next_id = 0; clients = [] }

abbrev pub capacity : ℕ
capacity = 128

unfoldable pub subscribe : StreamHub → ℕ × StreamHub
subscribe h = (
  h.next_id,
  record { next_id = h.next_id + 1; clients = record { id = h.next_id; ch = [] } ∷ h.clients },
)

without : ℕ → List Client → List Client
without id [] = []
without id (c ∷ cs) = if eqb c.id id then without id cs else c ∷ without id cs

-- Unsubscribe of an id that is not there changes nothing.
unfoldable pub unsubscribe : ℕ → StreamHub → StreamHub
unfolding without
unsubscribe id h = record h { clients = without id h.clients }

offer : Event → Client → Client
offer e c = if ltb (length c.ch) capacity then record c { ch = c.ch ++ e ∷ [] } else c

offer_all : Event → List Client → List Client
offer_all e [] = []
offer_all e (c ∷ cs) = offer e c ∷ offer_all e cs

-- Publish: a client whose channel is full misses the event.
unfoldable pub publish : Event → StreamHub → StreamHub
unfolding offer_all offer
publish e h = record h { clients = offer_all e h.clients }
