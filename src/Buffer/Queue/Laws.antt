-- ===== src/Buffer/Queue/Laws.antt =====
-- The queue is first in, first out, bounded, and loses nothing that it took.
use dmz_collector.Base.{ℕ, zero, suc, min, max, List, [], ◌∷◌, ◌++◌, ◌≡◌, refl, ap, arith, length}
use dmz_collector.Event.{Event}
use dmz_collector.Buffer.Queue.{Queue, drain, pop_batch}

drain_lem :
    (n : ℕ) (ch : List Event)
    → ((drain n ch).0 ++ (drain n ch).1 ≡ ch) × (length (drain n ch).0 ≡ min n (length ch))
unfolding drain
drain_lem zero ch = (refl, omega arith)
drain_lem (suc n) [] = (refl, omega arith)
drain_lem (suc n) (e ∷ ch) =
    let (whole, size) = drain_lem n ch in (ap (λ (l : List Event). e ∷ l) whole, omega arith)

-- A batch is the oldest events of the queue in their order, at most as many as asked for (one,
-- where none is asked for) and no fewer than there are; the others stay, and no counter moves.
pub pop_batch_lem :
    (n : ℕ) (q : Queue)
    → ((pop_batch n q).0 ++ (pop_batch n q).1.ch ≡ q.ch)
      × (length (pop_batch n q).0 ≡ min (max n 1) (length q.ch))
      × ((pop_batch n q).1.stats ≡ q.stats)
      × ((pop_batch n q).1.size ≡ q.size)
unfolding pop_batch
pop_batch_lem zero q = let (whole, size) = drain_lem 1 q.ch in (whole, omega arith, refl, refl)
pop_batch_lem (suc n) q =
    let (whole, size) = drain_lem (suc n) q.ch in (whole, omega arith, refl, refl)
