-- ===== src/Api/Events.antt =====
-- The handlers of internal/api/handlers.go that take events in.
use dmz_collector.Base.{
  ℕ, ◌+◌, String, Bool, List, [], ◌∷◌, Option, none, some, if◌then◌else◌, ◌==◌, ltb, eqb, not, true,
  false,
}
use dmz_collector.Event.{Event, parse_many}
use dmz_collector.Text.{trim_space}
use dmz_collector.Storage.{EventQuery, read_filtered}
use dmz_collector.App.{App, Env, ingest_one, ingest_batch}
use dmz_collector.Normalizer.{ok, err}
use dmz_collector.Receivers.Ids.{AlertLib, normalize_ids_alert}
use dmz_collector.Receivers.Jumphost.Ssh.{Pattern}
use dmz_collector.Receivers.Jumphost.Many.{normalize_jumphost_events_many}
use dmz_collector.Receivers.{Reading, read, refused}
use dmz_collector.Receivers.Vault.{normalize_vault_audit_many}
use dmz_collector.Receivers.OpcuaDmz.Many.{normalize_events_many}
use dmz_collector.Api.{
  Request, counts, events, Response, Handler, fail, method_not_allowed, require_bearer, limited,
}

abbrev pub body_limit : ℕ
body_limit = 4_194_304

-- What DecodeEventsFromRequest answers with besides events.
pub data DecodeError : Type 0 where
  payload_too_large invalid_payload : DecodeError

pub data Decoded : Type 0 where
  decoded : List Event → Decoded
  failed : DecodeError → Decoded

-- Each event of a batch with its own surroundings.
unfoldable pub surrounded : (ℕ → Env) → ℕ → List Event → List (Env × Event)
surrounded envs n [] = []
surrounded envs n (e ∷ es) = (envs n, e) ∷ surrounded envs (n + 1) es

abbrev pub refusal : ℕ → App → App × Response
refusal status a = (a, record { status = status; payload = counts 0 1 0 })

-- DecodeEventsFromRequest of internal/ingest/http_receiver.go
unfoldable pub decode_events_from_request : Env → Request → Decoded
decode_events_from_request env r =
    if ltb body_limit r.content_length then failed payload_too_large else elim r.body [
      | none ↦ failed invalid_payload
      | some body ↦ elim (parse_many env.platform env.clock.text (limited body_limit body)) [
        | none ↦ failed invalid_payload
        | some es ↦ decoded es
      ]
    ]

-- The surroundings of the reading of the body, and of each event that is taken in.
module _ (env : Env) (envs : ℕ → Env) where
  -- The last lines of the handlers: the batch is taken in and counted.
  unfoldable pub batch_response : List Event → App → App × Response
  unfolding surrounded
  batch_response es a =
      let (b, t) = ingest_batch (surrounded envs 0 es) a in
      (b, record { status = 202; payload = counts t.accepted t.rejected t.queued })

  -- handleEventsIngest
  unfoldable pub handle_events_ingest : Handler
  unfolding decode_events_from_request batch_response
  handle_events_ingest r a = elim (decode_events_from_request env r) [
    | failed payload_too_large ↦ refusal 413 a
    | failed invalid_payload ↦ refusal 400 a
    | decoded es ↦ batch_response es a
  ]

  -- The handlers of the receivers differ in the receiver alone.
  unfoldable pub handle_receiver : (String → Reading (List Event)) → Handler
  unfolding batch_response
  handle_receiver many r a =
      if not (r.method == "POST") then method_not_allowed a else elim r.body [
        | none ↦ fail 400 "invalid body" a
        | some body ↦ elim (many (limited body_limit body)) [
          | refused reason ↦ refusal 400 a
          | read es ↦ batch_response es a
        ]
      ]

  -- handleVaultAudit
  unfoldable pub handle_vault_audit : Handler
  unfolding handle_receiver
  handle_vault_audit r a =
      handle_receiver (normalize_vault_audit_many env.platform env.codec env.clock.text) r a

  -- handleOPCUADMZEvents
  unfoldable pub handle_opcua_dmz_events : Handler
  unfolding handle_receiver
  handle_opcua_dmz_events r a =
      handle_receiver (normalize_events_many env.platform env.codec env.clock.text) r a

  -- handleJumphostEvents
  unfoldable pub handle_jumphost_events : (Pattern → String → List String) → Handler
  unfolding handle_receiver
  handle_jumphost_events submatch r a =
      handle_receiver
        (normalize_jumphost_events_many submatch env.platform env.codec env.clock.text) r a

  -- IngestSingle: whether there was no error.
  unfoldable pub ingest_single : Event → App → App × Bool
  ingest_single e a =
      let (b, answer) = ingest_one (envs 0) e a in
      (b, elim answer [ err x ↦ false | ok got ↦ true ])

  abbrev pub alert_response : App × Bool → App × Response
  alert_response (b, taken) =
      if taken
      then (b, record { status = 202; payload = counts 1 0 1 })
      else fail 500 "ingest failed" b

  -- handleIDSAlerts
  unfoldable pub handle_ids_alerts : AlertLib → Handler
  unfolding ingest_single
  handle_ids_alerts lib r a =
      if not (r.method == "POST") then method_not_allowed a else elim r.body [
        | none ↦ fail 400 "invalid body" a
        | some body ↦
            elim (normalize_ids_alert lib env.platform env.clock.text (limited 1_048_576 body)) [
              | none ↦ fail 400 "invalid ids payload" a
              | some e ↦ alert_response (ingest_single e a)
            ]
      ]

  unfoldable pub post_ids_alerts : AlertLib → String → Handler
  unfolding handle_ids_alerts
  post_ids_alerts lib ingest_token = require_bearer ingest_token (handle_ids_alerts lib)

  unfoldable pub post_jumphost_events : (Pattern → String → List String) → String → Handler
  unfolding handle_jumphost_events
  post_jumphost_events submatch jumphost_events_token =
      require_bearer jumphost_events_token (handle_jumphost_events submatch)

  unfoldable pub post_vault_audit : String → Handler
  unfolding handle_vault_audit
  post_vault_audit ingest_token = require_bearer ingest_token handle_vault_audit

  unfoldable pub post_opcua_dmz_events : String → Handler
  unfolding handle_opcua_dmz_events
  post_opcua_dmz_events opcua_dmz_events_token =
      require_bearer opcua_dmz_events_token handle_opcua_dmz_events

  -- strconv.Atoi, where it gives a positive number.
  module _ (atoi : String → Option ℕ) where
    -- parseInt
    unfoldable pub parse_int : String → ℕ → ℕ
    parse_int v otherwise = elim (atoi v) [
      | none ↦ otherwise
      | some n ↦ if eqb n 0 then otherwise else n
    ]

    -- The query of handleEventsList.
    unfoldable pub query_of : Request → EventQuery
    unfolding parse_int
    query_of r = record {
      limit = parse_int (r.query "limit") 200;
      source_type = trim_space (r.query "source_type");
      severity = trim_space (r.query "severity");
      category = trim_space (r.query "category");
      asset =
          trim_space
            (if trim_space (r.query "asset") == "" then r.query "asset_ip" else r.query "asset");
      search = trim_space (r.query "search");
    }

    -- handleEventsList, with what the file system answers.
    unfoldable pub handle_events_list : Bool → Handler
    unfolding query_of
    handle_events_list readable r a =
        elim (read_filtered env.codec env.platform env.clock.text readable a.store (query_of r)) [
          | none ↦ fail 500 "failed to read events" a
          | some es ↦ (a, record { status = 200; payload = events es })
        ]

    -- handleEventsIngestOrList
    unfoldable pub handle_events_ingest_or_list : Bool → String → Handler
    unfolding handle_events_ingest handle_events_list
    handle_events_ingest_or_list readable ingest_token r a =
        if r.method == "POST"
        then require_bearer ingest_token handle_events_ingest r a
        else if r.method == "GET"
        then handle_events_list readable r a
        else method_not_allowed a
