-- ===== src/App/Growth.antt =====
-- What putting pending records of the spool in the queue leaves alone: enqueuePendingFromSpool of
-- cmd/dmz-collector/main.go.
use dmz_collector.Base.{
  ℕ, ◌≡◌, refl, List, [], ◌∷◌, ◌++◌, append-nil, append_assoc, sym, ◌∙◌, ap, case_both, member, ltb,
  length, Bool-cases, inl, inr,
}
use dmz_collector.Event.{Event}
use dmz_collector.Buffer.Queue
use dmz_collector.Buffer.Spool.{SpoolRecord}
use dmz_collector.Buffer.Spool
use dmz_collector.App.{App, Env, enqueue_if_needed, mark_inflight, may_enqueue, push_event}
use dmz_collector.App.Forward.{enqueue_records, enqueue_pending}

-- The queue has grown at its end, under the same configuration.
pub record Grown (a b : App) : Type 0 where
  pub more : List Event
  pub ch : b.queue.ch ≡ a.queue.ch ++ more
  pub fwd : b.fwd ≡ a.fwd

pub Grown-refl : (a : App) → Grown a a
Grown-refl a = record { more = []; ch = sym (append-nil a.queue.ch); fwd = refl }

Grown-trans : (a b c : App) → Grown a b → Grown b c → Grown a c
Grown-trans a b c g h = record {
  more = g.more ++ h.more;
  ch = h.ch ∙ ap (λ (l : List Event). l ++ h.more) g.ch ∙ append_assoc a.queue.ch g.more h.more;
  fwd = h.fwd ∙ g.fwd;
}

-- The same from a state with the same queue and configuration.
pub Grown-from : (a b c : App) → b.queue.ch ≡ a.queue.ch → b.fwd ≡ a.fwd → Grown b c → Grown a c
Grown-from a b c ch fwd g = record {
  more = g.more;
  ch = g.ch ∙ ap (λ (l : List Event). l ++ g.more) ch;
  fwd = g.fwd ∙ fwd;
}

enqueue_if_needed-Grown : (a : App) (e : Event) (n : ℕ) → Grown a (enqueue_if_needed a e n).0
unfolding enqueue_if_needed mark_inflight may_enqueue push_event Queue.push
enqueue_if_needed-Grown a e n = elim (Bool-cases (member e.id a.inflight)) [
  | inl held ↦ rw held (Grown-refl a)
  | inr new ↦ rw new (elim (Bool-cases (ltb (length a.queue.ch) a.queue.size)) [
    | inl room ↦ rw room (record { more = e ∷ []; ch = refl; fwd = refl })
    | inr full ↦ rw full (Grown-refl a)
  ])
]

enqueue_records-Grown : (rs : List SpoolRecord) (a : App) → Grown a (enqueue_records rs a).0
unfolding enqueue_records
enqueue_records-Grown [] a = Grown-refl a
enqueue_records-Grown (r ∷ rs) a =
    let b = (enqueue_if_needed a r.event r.offset).0 in
    Grown-trans a b (enqueue_records rs b).0 (enqueue_if_needed-Grown a r.event r.offset)
      (enqueue_records-Grown rs b)

pub enqueue_pending-Grown : (env : Env) (a : App) → Grown a (enqueue_pending env a).0
unfolding enqueue_pending
enqueue_pending-Grown env a =
    case_both (λ (o : App × ℕ). Grown a o.0)
      (Spool.load_pending env.codec env.platform env.clock.text env.spool_readable a.spool) (a, 0)
      (λ rs. enqueue_records rs a) (λ failed. Grown-refl a) (λ rs found. enqueue_records-Grown rs a)
