-- ===== src/Hub/Streams.antt =====
-- The subscribers of internal/api/stream.go stay apart, bounded and in order.
use dmz_collector.Base.{ℕ, ◌≤◌, ◌<◌, List, [], ◌∷◌, arith, length, length-append}
use dmz_collector.Event.{Event}
use dmz_collector.Hub.{
  Client, StreamHub, new_stream_hub, capacity, subscribe, without, unsubscribe, offer, offer_all,
  publish,
}

-- Ids are given once, from 0 on, the newest first, and no channel holds more than its capacity.
abbrev Below : ℕ → List Client → Type 0
Below n [] = Unit
Below n (c ∷ cs) = (c.id < n) × (length c.ch ≤ capacity) × Below c.id cs

pub IsSound : StreamHub → Type 0
IsSound h = Below h.next_id h.clients

Below-mono : (m n : ℕ) (cs : List Client) → m ≤ n → Below m cs → Below n cs
Below-mono m n [] h b = tt
Below-mono m n (c ∷ cs) h b = (omega arith, b.1, b.2)

without-Below : (id n : ℕ) (cs : List Client) → Below n cs → Below n (without id cs)
unfolding without
without-Below id n [] b = tt
without-Below id n (c ∷ cs) b =
    ground (arith, without-Below id c.id cs b.2, Below-mono c.id n (without id cs))

offer_all-Below : (e : Event) (n : ℕ) (cs : List Client) → Below n cs → Below n (offer_all e cs)
unfolding offer_all offer
offer_all-Below e n [] b = tt
offer_all-Below e n (c ∷ cs) b =
    ground (arith, offer_all-Below e c.id cs b.2, length-append c.ch (e ∷ []))

pub data Action : Type 0 where
  joins : Action
  leaves : ℕ → Action
  publishes : Event → Action

pub act : Action → StreamHub → StreamHub
act joins h = (subscribe h).1
act (leaves id) h = unsubscribe id h
act (publishes e) h = publish e h

pub act_all : List Action → StreamHub → StreamHub
act_all [] h = h
act_all (a ∷ as') h = act_all as' (act a h)

act-IsSound : (a : Action) (h : StreamHub) → IsSound h → IsSound (act a h)
unfolding act IsSound subscribe unsubscribe publish
act-IsSound joins h s = (omega arith, omega arith, s)
act-IsSound (leaves id) h s = without-Below id h.next_id h.clients s
act-IsSound (publishes e) h s = offer_all-Below e h.next_id h.clients s

act_all_from : (as' : List Action) (h : StreamHub) → IsSound h → IsSound (act_all as' h)
unfolding act_all
act_all_from [] h s = s
act_all_from (a ∷ as') h s = act_all_from as' (act a h) (act-IsSound a h s)

-- After any subscriptions, departures and publications the ids of the clients fall along the list
-- and are below the next id, so no two clients share one, and no channel holds more than 128 events.
pub act_all-IsSound : (as' : List Action) → IsSound (act_all as' new_stream_hub)
unfolding new_stream_hub IsSound
act_all-IsSound as' = act_all_from as' new_stream_hub tt
