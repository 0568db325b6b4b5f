-- ===== src/Api/Refused.antt =====
-- What a request to the handlers of internal/api/handlers.go that take events in can change.
use Prim.Native.String.{len, slice}
use text.Mathlib.Text.{starts_with}
use dmz_collector.Base.{
  ℕ, ◌+◌, ◌≤◌, String, Bool, true, ◌&&◌, ◌||◌, not, List, Option, ◌≡◌, refl, arith, ◌==◌, ◌⊎◌, inl,
  inr, eq_iff, Bool-cases, if_both, case_both, subst, sym, ap, false,
}
use dmz_collector.Text.{to_lower, trim_space}
use dmz_collector.Event.{Event}
use dmz_collector.Storage.{read_filtered}
use dmz_collector.App.{App, Env, ingest_one, ingest_batch}
use dmz_collector.Normalizer.{ok, err, Result}
use dmz_collector.Receivers.Jumphost.Ssh.{Pattern}
use dmz_collector.Receivers.Jumphost.Many.{normalize_jumphost_events_many}
use dmz_collector.App.Batch.{ingest_batch_lem, ingest_one-IsAnswer, accepted_of}
use dmz_collector.Receivers.Ids.{AlertLib, normalize_ids_alert}
use dmz_collector.Receivers.{Reading, read, refused}
use dmz_collector.Receivers.Vault.{normalize_vault_audit_many}
use dmz_collector.Receivers.OpcuaDmz.Many.{normalize_events_many}
use dmz_collector.Api.{Request, counts, Response, fail, Handler, require_bearer, limited}
use dmz_collector.Api.Events.{
  decoded, failed, payload_too_large, invalid_payload, decode_events_from_request, surrounded,
  batch_response, handle_events_ingest, handle_receiver, handle_vault_audit,
  handle_opcua_dmz_events, post_vault_audit, post_opcua_dmz_events, refusal, body_limit, query_of,
  handle_events_list, handle_events_ingest_or_list, ingest_single, alert_response,
  handle_ids_alerts, post_ids_alerts, handle_jumphost_events, post_jumphost_events,
}

-- Whether a request carries the token, where one is asked for.
unfoldable pub carries : String → Request → Bool
carries token r =
    (trim_space token == "")
    || (not (r.authorization == "")
        && starts_with (to_lower r.authorization) "bearer "
        && (trim_space (slice r.authorization 7 (len r.authorization)) == trim_space token))

-- The events were taken in: the answer counts those accepted, which the statistics grew by, no fewer
-- of them than were queued.
abbrev pub Taken : App → App × Response → Type 0
Taken a out =
    (accepted : ℕ) × (rejected : ℕ) × (queued : ℕ) × (out.1.payload
      ≡ counts accepted rejected queued)
    × (out.0.stats.total_received ≡ a.stats.total_received + accepted)
    × (queued ≤ accepted)

-- Nothing changed, or events were taken in and `C` holds.
abbrev pub Outcome : Type 0 → App → App × Response → Type 0
Outcome C a out = (out.0 ≡ a) ⊎ (C × (out.1.status ≡ 202) × Taken a out)

module _ (env : Env) (envs : ℕ → Env) (r : Request) (a : App) where
  batch_response-Outcome :
      {C : Type 0} → C → (es : List Event) → Outcome C a (batch_response env envs es a)
  unfolding batch_response
  batch_response-Outcome given es =
      let (total, queued, most, errs) = ingest_batch_lem (surrounded envs 0 es) a in
      let t = (ingest_batch (surrounded envs 0 es) a).1 in
      inr (given, refl, (t.accepted, t.rejected, t.queued, refl, total, queued))

  handle_events_ingest-Outcome : {C : Type 0} → C → Outcome C a (handle_events_ingest env envs r a)
  unfolding handle_events_ingest
  handle_events_ingest-Outcome {C = C} given =
      elim (decode_events_from_request env r)
        as (λ d. Outcome C a (elim d [
          | failed payload_too_large ↦ refusal 413 a
          | failed invalid_payload ↦ refusal 400 a
          | decoded es ↦ batch_response env envs es a
        ])) [
          | failed payload_too_large ↦ inl refl
          | failed invalid_payload ↦ inl refl
          | decoded es ↦ batch_response-Outcome given es
        ]

  read-Outcome :
      {C : Type 0}
      → C
      → (answer : Reading (List Event))
      → Outcome C a
          (elim answer [ refused reason ↦ refusal 400 a | read es ↦ batch_response env envs es a ])
  read-Outcome given (refused reason) = inl refl
  read-Outcome given (read es) = batch_response-Outcome given es

  handle_receiver-Outcome :
      (many : String → Reading (List Event))
      → Outcome (r.method ≡ "POST") a (handle_receiver env envs many r a)
  unfolding handle_receiver
  handle_receiver-Outcome many = elim (Bool-cases (r.method == "POST")) [
    | inr other ↦ inl (rw other refl)
    | inl post ↦
        let given = (eq_iff r.method "POST").0 post in
        rw post (
          case_both (Outcome (r.method ≡ "POST") a) r.body (fail 400 "invalid body" a) _
            (λ unreadable. inl refl)
            (λ body found. read-Outcome given (many (limited body_limit body))))
  ]

-- The token lets a request through, or it changes nothing.
require_bearer_cases :
    (token : String) (next : Handler) (r : Request) (a : App)
    → ((require_bearer token next r a ≡ next r a) × (carries token r ≡ true))
      ⊎ ((require_bearer token next r a).0 ≡ a)
unfolding require_bearer carries
require_bearer_cases token next r a = elim (Bool-cases (trim_space token == "")) [
  | inl open_to_all ↦ rw open_to_all (inl (refl, refl))
  | inr guarded ↦
      elim (Bool-cases
        ((r.authorization == "") || not (starts_with (to_lower r.authorization) "bearer "))) [
          | inl bare ↦ rw (guarded, bare) (inr refl)
          | inr bearer ↦
              elim (Bool-cases
                (trim_space (slice r.authorization 7 (len r.authorization)) == trim_space token)) [
                  | inr wrong ↦ rw (guarded, bearer, wrong) (inr refl)
                  | inl right ↦ rw (guarded, bearer, right) (inl (refl, ground arith))
                ]
        ]
]

require_bearer-Outcome :
    (C : Type 0) (token : String) (next : Handler) (r : Request) (a : App)
    → Outcome C a (next r a)
    → Outcome (C × (carries token r ≡ true)) a (require_bearer token next r a)
require_bearer-Outcome C token next r a out = elim (require_bearer_cases token next r a) [
  | inr same ↦ inl same
  | inl (through, carried) ↦
      subst (Outcome (C × (carries token r ≡ true)) a) (sym through) (elim out [
        | inl same ↦ inl same
        | inr (given, status, taken) ↦ inr ((given, carried), status, taken)
      ])
]

handle_events_ingest_or_list-Outcome :
    (env : Env) (envs : ℕ → Env) (atoi : String → Option ℕ) (readable : Bool) (token : String)
    (r : Request) (a : App)
    → Outcome
        ((r.method ≡ "POST") × (carries token r ≡ true))
        a
        (handle_events_ingest_or_list env envs atoi readable token r a)
unfolding handle_events_ingest_or_list handle_events_list
handle_events_ingest_or_list-Outcome env envs atoi readable token r a =
    elim (Bool-cases (r.method == "POST")) [
      | inl post ↦ rw post (
          require_bearer-Outcome (r.method ≡ "POST") token (handle_events_ingest env envs) r a
            (handle_events_ingest-Outcome env envs r a ((eq_iff r.method "POST").0 post)))
      | inr other ↦ rw other (
          inl (
            if_both (λ (o : App × Response). o.0 ≡ a) (r.method == "GET") _ _
              (case_both (λ (o : App × Response). o.0 ≡ a)
                (read_filtered env.codec env.platform env.clock.text readable a.store
                  (query_of env envs atoi r))
                _ _ (λ failed. refl) (λ es found. refl))
              refl))
    ]

-- One alert counts for nothing, or it was a POST, `C` holds and it was answered 202.
abbrev pub OneOutcome : Type 0 → App → App × Response → Type 0
OneOutcome C a out =
    (out.0.stats.total_received ≡ a.stats.total_received)
    ⊎ (C × (out.1.status ≡ 202) × (out.0.stats.total_received ≡ a.stats.total_received + 1))

module _ (env : Env) (envs : ℕ → Env) (lib : AlertLib) (r : Request) (a : App) where
  answered-OneOutcome :
      {C : Type 0}
      → C
      → (b : App) (answer : Result (Bool × Bool))
      → b.stats.total_received ≡ a.stats.total_received + accepted_of answer
      → OneOutcome C a (alert_response env envs (b, elim answer [ err x ↦ false | ok got ↦ true ]))
  answered-OneOutcome given b (err x) total = inl (omega arith)
  answered-OneOutcome given b (ok (true, queued)) total = inr (given, refl, total)
  answered-OneOutcome given b (ok (false, queued)) total = inl (omega arith)

  handle_ids_alerts-OneOutcome :
      OneOutcome (r.method ≡ "POST") a (handle_ids_alerts env envs lib r a)
  unfolding handle_ids_alerts ingest_single
  handle_ids_alerts-OneOutcome = elim (Bool-cases (r.method == "POST")) [
    | inr other ↦ inl (rw other refl)
    | inl post ↦
        let given = (eq_iff r.method "POST").0 post in
        let P = OneOutcome (r.method ≡ "POST") a in
        rw post (
          case_both P r.body (fail 400 "invalid body" a) _ (λ unreadable. inl refl)
            (λ body found.
              case_both P
                (normalize_ids_alert lib env.platform env.clock.text (limited 1_048_576 body))
                (fail 400 "invalid ids payload" a) _ (λ invalid. inl refl)
                (λ e made.
                  let taken = ingest_one (envs 0) e a in
                  answered-OneOutcome given taken.0 taken.1 (ingest_one-IsAnswer (envs 0) e a).0)))
  ]

  post_ids_alerts-OneOutcome :
      (token : String)
      → OneOutcome
          ((r.method ≡ "POST") × (carries token r ≡ true))
          a
          (post_ids_alerts env envs lib token r a)
  unfolding post_ids_alerts
  post_ids_alerts-OneOutcome token =
      elim (require_bearer_cases token (handle_ids_alerts env envs lib) r a) [
        | inr same ↦ inl (ap (λ (b : App). b.stats.total_received) same)
        | inl (through, carried) ↦
            subst (OneOutcome ((r.method ≡ "POST") × (carries token r ≡ true)) a) (sym through)
              (elim handle_ids_alerts-OneOutcome [
                | inl same ↦ inl same
                | inr (given, status, total) ↦ inr ((given, carried), status, total)
              ])
      ]

-- Whatever the surroundings, a request to the routes that take events in (the events themselves,
-- Vault's audit log, the OPC UA gateway, the jump host) either leaves the whole collector as it was,
-- or it is a POST that carries the route's token where one is set, and is answered 202 with the
-- count of the events accepted, which the statistics grew by and which is no less than the count
-- queued. A request to the route of the IDS leaves the count of events as it was, or it is such a
-- POST, is answered 202, and one event was accepted.
pub routes-Outcome :
    (env : Env) (envs : ℕ → Env) (atoi : String → Option ℕ) (lib : AlertLib)
    (submatch : Pattern → String → List String) (readable : Bool) (token : String) (r : Request)
    (a : App)
    → let C = (r.method ≡ "POST") × (carries token r ≡ true) in
      Outcome C a (handle_events_ingest_or_list env envs atoi readable token r a)
      × Outcome C a (post_vault_audit env envs token r a)
      × Outcome C a (post_opcua_dmz_events env envs token r a)
      × Outcome C a (post_jumphost_events env envs submatch token r a)
      × OneOutcome C a (post_ids_alerts env envs lib token r a)
unfolding post_vault_audit post_opcua_dmz_events post_jumphost_events handle_vault_audit
    handle_opcua_dmz_events handle_jumphost_events
routes-Outcome env envs atoi lib submatch readable token r a = (
  handle_events_ingest_or_list-Outcome env envs atoi readable token r a,
  received (handle_vault_audit env envs) (
      handle_receiver-Outcome env envs r a
        (normalize_vault_audit_many env.platform env.codec env.clock.text)),
  received (handle_opcua_dmz_events env envs) (
      handle_receiver-Outcome env envs r a
        (normalize_events_many env.platform env.codec env.clock.text)),
  received (handle_jumphost_events env envs submatch) (
      handle_receiver-Outcome env envs r a
        (normalize_jumphost_events_many submatch env.platform env.codec env.clock.text)),
  post_ids_alerts-OneOutcome env envs lib r a token,
)
  where
    received :
        (next : Handler)
        → Outcome (r.method ≡ "POST") a (next r a)
        → Outcome ((r.method ≡ "POST") × (carries token r ≡ true)) a (require_bearer token next r a)
    received next = require_bearer-Outcome (r.method ≡ "POST") token next r a
