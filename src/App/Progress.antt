-- ===== src/App/Progress.antt =====
-- The worker of cmd/dmz-collector/main.go gets on: what waits is sent after enough rounds.
use dmz_collector.Base.{
  ℕ, ◌+◌, ◌*◌, ◌≤◌, max, ◌≡◌, refl, String, true, List, [], ◌∷◌, ◌++◌, append-nil, append_assoc,
  arith, sym, ◌∙◌, ap, subst, length, length-append, inl, inr, ◌⊎◌,
}
use mathlib.Core.List.{head-eq_of_cons-eq, tail-eq_of_cons-eq}
use dmz_collector.Event.{Event}
use dmz_collector.Config.{ForwardingStore}
use dmz_collector.Forwarder.{Net}
use dmz_collector.Buffer.Queue
use dmz_collector.Buffer.Queue.Laws.{pop_batch_lem}
use dmz_collector.App.{App, Env, is_forwarding_enabled}
use dmz_collector.App.Forward.{Worker, worker_round}
use dmz_collector.App.Flight.{occurrences, occurrences-append, waiting}
use dmz_collector.App.Sent.{Takes, unpaused, idle-Sent, held-Sent, still_forwards}

-- The rounds of the worker, each with its own surroundings.
unfoldable pub rounds : Net → ℕ → List Env → App × Worker → App × Worker
rounds net n [] s = s
rounds net n (env ∷ envs) s = rounds net n envs (worker_round env net n s)

-- Two ways to cut a list: one beginning is the other's, or the other is the first's.
cut :
    (x y b r : List Event)
    → b ++ r ≡ x ++ y
    → ((z : List Event) × (b ≡ x ++ z)) ⊎ ((z : List Event) × (x ≡ b ++ z) × (r ≡ z ++ y))
cut [] y b r same = inl (b, refl)
cut (e ∷ x) y [] r same = inr (e ∷ x, refl, same)
cut (e ∷ x) y (f ∷ b) r same =
    let head : f ≡ e = head-eq_of_cons-eq same in
    elim (cut x y b r (tail-eq_of_cons-eq same)) [
      | inl (z, p) ↦ inl (z, cc)
      | inr (z, p, q) ↦ inr (z, cc, q)
    ]

-- What the rounds of a worker without a batch in hand have sent: what was sent, and the first
-- events of the queue, as many as the rounds have room for.
rounds-sent :
    (net : Net) (n : ℕ) (envs : List Env) (a : App) (w : Worker) (xs ys : List Event)
    → is_forwarding_enabled a ≡ true
    → Takes net a.fwd.cfg
    → w.pending ≡ []
    → a.queue.ch ≡ xs ++ ys
    → length xs ≤ length envs * max n 1
    → (id : String)
    → occurrences id w.sent + occurrences id xs ≤ occurrences id (rounds net n envs (a, w)).1.sent
unfolding rounds Queue.set_paused
rounds-sent net n [] a w [] ys on takes idle ch room id = omega arith
rounds-sent net n [] a w (x ∷ xs) ys on takes idle ch room id = omega arith
rounds-sent net n (env ∷ envs) a w xs ys on takes idle ch room id =
    let (batch, q) = Queue.pop_batch n (unpaused a) in
    let (whole, size, kept, same) = pop_batch_lem n (unpaused a) in
    let (b, v) = worker_round env net n (a, w) in
    let r = idle-Sent env net n a w on takes idle in
    let on' = still_forwards a b r.grown.fwd on in
    let takes' = subst (λ (f : ForwardingStore). Takes net f.cfg) (sym r.grown.fwd) takes in
    elim (cut xs ys batch q.ch (whole ∙ ch)) [
      | inl (z, p) ↦
          (let later =
              rounds-sent net n envs b v [] b.queue.ch on' takes' r.pending refl (omega arith) id in
            omega (arith, r.sent_all id, occurrences-append id xs z, ap (occurrences id) p, later))
      | inr (z, p, rest) ↦
          (let order =
              r.grown.ch
              ∙ ap (λ (l : List Event). l ++ r.grown.more) rest
              ∙ append_assoc z ys r.grown.more in
            let fits : length z ≤ length envs * max n 1 = omega (
              arith,
              size,
              ap length ch,
              ap length p,
              length-append xs ys,
              length-append batch z,
              room,
            ) in
            let later =
              rounds-sent net n envs b v z (ys ++ r.grown.more) on' takes' r.pending order fits
                id in
            omega
              (arith, r.sent_all id, occurrences-append id batch z, ap (occurrences id) p, later))
    ]

-- Let forwarding be on and the receiver refuse no event. If the worker, in whatever state, is given
-- one round more than it takes to empty the queue of today by batches of the configured size (at
-- least 1), then every event that waits now, in the batch in hand or in the queue, was sent by the
-- end: an id is among the events sent at least as often as it is among the sent and the waiting
-- ones now.
pub rounds_lem :
    (net : Net) (n : ℕ) (env : Env) (envs : List Env) (a : App) (w : Worker)
    → is_forwarding_enabled a ≡ true
    → Takes net a.fwd.cfg
    → length a.queue.ch ≤ length envs * max n 1
    → (id : String)
    → occurrences id w.sent + occurrences id (waiting a w)
      ≤ occurrences id (rounds net n (env ∷ envs) (a, w)).1.sent
unfolding rounds Queue.set_paused
rounds_lem net n env envs a w on takes room id = go w.pending refl
  where
    go :
        (pending : List Event)
        → w.pending ≡ pending
        → occurrences id w.sent + occurrences id (waiting a w)
          ≤ occurrences id (rounds net n (env ∷ envs) (a, w)).1.sent
    go [] idle =
        let sent =
          rounds-sent net n (env ∷ envs) a w a.queue.ch [] on takes idle
            (sym (append-nil a.queue.ch)) (omega (arith, room)) id in
        omega (arith, sent, occurrences-append id w.pending a.queue.ch, ap (occurrences id) idle)
    go (e ∷ es) held =
        let (b, v) = worker_round env net n (a, w) in
        let r = held-Sent env net n a w e es on takes held in
        let sent =
          rounds-sent net n envs b v a.queue.ch r.grown.more (still_forwards a b r.grown.fwd on)
            (subst (λ (f : ForwardingStore). Takes net f.cfg) (sym r.grown.fwd) takes) r.pending
            r.grown.ch room id in
        omega (
          arith,
          sent,
          r.sent_all id,
          occurrences-append id w.pending a.queue.ch,
          ap (occurrences id) held,
        )
