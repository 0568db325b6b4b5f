-- ===== src/Tests/Handlers.antt =====
-- What the theorems on the handlers and the views say of the collector in miniature.
use dmz_collector.Base.{
  ◌+◌, String, List, true, false, ◌||◌, not, [], ◌∷◌, Option, none, some, ◌≡◌, refl, if◌then◌else◌,
  ◌==◌, length,
}
use dmz_collector.Text.{trim_space}
use dmz_collector.Stats.Counts.{sum}
use dmz_collector.Config.{written, ForwardingConfig, completed}
use dmz_collector.Catalog.{Catalog, new_catalog}
use dmz_collector.Catalog.Observation.{observes, run, run-AllCounted}
use dmz_collector.Catalog.View.{VisibilityOptions, snapshot}
use dmz_collector.Catalog.Summary.{summary}
use dmz_collector.Catalog.Totals.{group_events, shown_events, summary_lem}
use dmz_collector.Api.{Request, forwarding, limited, fail, require_bearer}
use dmz_collector.Api.Settings.{handle_config_forwarding}
use dmz_collector.Api.Masked.{handle_config_forwarding_masked}
use dmz_collector.Api.Events.{
  handle_events_ingest_or_list, handle_vault_audit, post_vault_audit, post_opcua_dmz_events,
  post_jumphost_events, post_ids_alerts,
}
use dmz_collector.Receivers.Ids.{AlertLib}
use dmz_collector.Receivers.Jumphost.Ssh.{Pattern}
use dmz_collector.Config.Environment.{EnvironmentLib, load_endpoint_token}
use dmz_collector.Api.Tokens.{unguarded, endpoint_token_lem}
use dmz_collector.Api.Refused.{carries, Outcome, OneOutcome, routes-Outcome}
use dmz_collector.Tests.{env, app, noon, evening, alarm}
use dmz_collector.Tests as Small

abbrev post : Request
post = record {
  method = "POST";
  query = λ key. "";
  authorization = "Bearer secret";
  content_length = 2;
  body = some "{}";
}

abbrev C : Type 0
C = (post.method ≡ "POST") × (carries "secret" post ≡ true)

abbrev alerts : AlertLib
alerts = record { unmarshal_alert = λ s. none; sprint_int = λ n. "2" }

-- No line of sshd matches.
abbrev no_match : Pattern → String → List String
no_match = λ pattern line. []

routes-Outcome_example :
    Outcome C app (handle_events_ingest_or_list env (λ n. env) (λ s. none) true "secret" post app)
    × Outcome C app (post_vault_audit env (λ n. env) "secret" post app)
    × Outcome C app (post_opcua_dmz_events env (λ n. env) "secret" post app)
    × Outcome C app (post_jumphost_events env (λ n. env) no_match "secret" post app)
    × OneOutcome C app (post_ids_alerts env (λ n. env) alerts "secret" post app)
routes-Outcome_example =
    routes-Outcome env (λ n. env) (λ s. none) alerts no_match true "secret" post app

-- A file is named for the token, and it cannot be read.
abbrev surroundings : EnvironmentLib
surroundings = record {
  get = λ key. if key == "TOKEN_FILE" then "/run/token" else "";
  read_file = λ path. none;
  atoi = λ s. none;
}

abbrev bare : Request
bare = record post { authorization = "" }

endpoint_token_lem_example :
    require_bearer
      (load_endpoint_token surroundings "TOKEN" "TOKEN_FILE" "")
      (handle_vault_audit env (λ n. env))
      bare
      app
    ≡ (if unguarded surroundings "TOKEN" "TOKEN_FILE" ""
        then handle_vault_audit env (λ n. env) bare app
        else fail 401 "missing bearer token" app)
endpoint_token_lem_example =
    endpoint_token_lem surroundings "TOKEN" "TOKEN_FILE" "" (handle_vault_audit env (λ n. env)) bare
      app refl

-- A configuration as a page posts it back, with the token masked and no index.
abbrev posted : ForwardingConfig
posted = record Small.forwarding { splunk_hec_token = "********"; splunk_index = "" }

abbrev decode : String → Option ForwardingConfig
decode s = if s == "{}" then some posted else none

decoded : decode (limited 1_048_576 "{}") ≡ some posted
unfolding limited
decoded = refl

masked :
    (trim_space posted.splunk_hec_token == "") || (trim_space posted.splunk_hec_token == "********")
    ≡ true
unfolding trim_space
masked = refl

handle_config_forwarding_masked_example :
    let (b, answer) =
      handle_config_forwarding env decode written (record post { method = "POST" }) app in
    let (c, read) =
      handle_config_forwarding env decode written (record post { method = "GET" }) b in
    (b.fwd.cfg ≡ completed (record posted { splunk_hec_token = app.fwd.cfg.splunk_hec_token }))
    × (answer.status ≡ 200)
    × (c ≡ b)
    × (read.payload
        ≡ forwarding (record {
          shown = record b.fwd.cfg { splunk_hec_token = "" };
          splunk_hec_token_set = not (trim_space app.fwd.cfg.splunk_hec_token == "");
        }))
    × (answer.payload ≡ read.payload)
handle_config_forwarding_masked_example =
    handle_config_forwarding_masked env decode written post app "{}" posted refl decoded masked

abbrev seen : Catalog
seen = run (observes evening alarm ∷ []) (new_catalog noon "http://ot")

abbrev opts : VisibilityOptions
opts = record { include_internal = false; include_disabled = true; include_direct_siem = false }

summary_lem_example :
    let shown = (snapshot seen opts).sources in
    let s = summary seen opts in
    (s.counts ≡ (snapshot seen opts).counts)
    × (s.counts.visible + s.counts.hidden ≡ length seen.records)
    × (length shown ≡ s.counts.visible)
    × (group_events s.breakdowns.by_group ≡ shown_events shown)
    × (sum s.breakdowns.by_source_type ≡ shown_events shown)
    × (sum s.breakdowns.by_zone ≡ shown_events shown)
    × (sum s.breakdowns.by_severity ≡ shown_events shown)
    × (sum s.breakdowns.by_category ≡ shown_events shown)
summary_lem_example =
    summary_lem seen opts (run-AllCounted noon "http://ot" (observes evening alarm ∷ []))
