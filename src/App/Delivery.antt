-- ===== src/App/Delivery.antt =====
-- What forwardBatch of cmd/dmz-collector/main.go sends, and in what order.
pub mod Round
use dmz_collector.Base.{
  ◌≡◌, refl, ap, sym, append-nil, ◌∙◌, String, true, not, List, [], ◌∷◌, ◌++◌, Option, none, some,
  All, Option-cases, inl, inr,
}
use dmz_collector.Event.{Event}
use dmz_collector.Config.{ForwardingConfig}
use dmz_collector.Forwarder.{Net, syslog_send}
use dmz_collector.App.Forward.{forward_batch}

abbrev pub send : Net → ForwardingConfig → Event → Option String
send net cfg e =
    syslog_send net cfg.syslog_forward_host cfg.syslog_forward_port cfg.syslog_forward_protocol e

-- What is left of a batch under an answer: nothing, or an event that was refused, and the rest.
abbrev pub IsLeft : Net → ForwardingConfig → Option String → List Event → Type 0
IsLeft net cfg none rest = rest ≡ []
IsLeft net cfg (some error) rest =
    (e : Event) × (es : List Event) × (rest ≡ e ∷ es) × (send net cfg e ≡ some error)

-- With syslog on, forwardBatch sends the events of the batch in order, each of them without an
-- error, until one is refused: without an error the whole batch went out, and an error is that of
-- the first event that did not go out.
pub forward_batch_lem :
    (net : Net) (cfg : ForwardingConfig) (batch : List Event)
    → cfg.syslog_forward_enabled ≡ true
    → (rest : List Event) × ((forward_batch net cfg batch).0 ++ rest ≡ batch)
      × All (λ e. send net cfg e ≡ none) (forward_batch net cfg batch).0
      × IsLeft net cfg (forward_batch net cfg batch).1 rest
unfolding forward_batch
forward_batch_lem net cfg [] on = ([], refl, tt, refl)
forward_batch_lem net cfg (e ∷ es) on =
    let (rest, whole, sent, left) = forward_batch_lem net cfg es on in
    elim (Option-cases (send net cfg e)) [
      | inl fine ↦ rw (on, fine) (rest, ap (λ (l : List Event). e ∷ l) whole, (fine, sent), left)
      | inr (error, refused) ↦ rw (on, refused) (e ∷ es, refl, tt, (e, es, refl, refused))
    ]

-- What went out of a batch by the answer of forwardBatch: all of it, or all before an event that was
-- refused.
abbrev pub IsSent :
    Net → ForwardingConfig → List Event → List Event → Option String → List Event → Type 0
IsSent net cfg order sent none all = all ≡ sent ++ order
IsSent net cfg order sent (some error) all =
    (out : List Event) × (e : Event) × (rest : List Event) × (order ≡ out ++ e ∷ rest)
    × (all ≡ sent ++ out)
    × All (λ x. send net cfg x ≡ none) out
    × (send net cfg e ≡ some error)

left-IsSent :
    (net : Net) (cfg : ForwardingConfig) (order sent out rest : List Event) (answer : Option String)
    → out ++ rest ≡ order
    → All (λ e. send net cfg e ≡ none) out
    → IsLeft net cfg answer rest
    → IsSent net cfg order sent answer (sent ++ out)
left-IsSent net cfg order sent out rest none whole fine left =
    ap (λ l. sent ++ l) (sym (append-nil out) ∙ ap (λ l. out ++ l) (sym left) ∙ whole)
left-IsSent net cfg order sent out rest (some error) whole fine (e, es, left, refused) =
    (out, e, es, sym whole ∙ ap (λ l. out ++ l) left, refl, fine, refused)

pub batch-IsSent :
    (net : Net) (cfg : ForwardingConfig) (order sent : List Event)
    → cfg.syslog_forward_enabled ≡ true
    → IsSent net cfg order sent
        (forward_batch net cfg order).1
        (sent ++ (forward_batch net cfg order).0)
batch-IsSent net cfg order sent on =
    let (rest, whole, fine, left) = forward_batch_lem net cfg order on in
    left-IsSent net cfg order sent (forward_batch net cfg order).0 rest
      (forward_batch net cfg order).1 whole fine left
