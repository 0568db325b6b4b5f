-- ===== src/Receivers/Gds/Contract.antt =====
-- The contract of internal/ingest/gds_events.go: the messages that GDS has agreed on, and how one is
-- found in a record.
use text.Mathlib.Text.{starts_with}
use dmz_collector.Base.{
  String, Bool, true, false, not, List, [], ◌∷◌, Option, none, some, Map, lookup, if◌then◌else◌,
  ◌==◌,
}
use dmz_collector.Text.{to_lower, trim_space}
use dmz_collector.Text.Words.{after_colon, first_word, trim_quotes}
use dmz_collector.Value.{Value}
use dmz_collector.Event.{Platform}
use dmz_collector.Receivers.Json.{map_any, string_any, first_string}

-- gdsContractSpec
pub record Spec : Type 0 where
  pub category : String
  pub severity : String
  pub risk_level : String
  pub component : String
  pub source : String
  pub protocol : String
  pub parser_version : String
  pub normalization_source : String
  pub alert_candidate : Bool

abbrev spec : String → String → String → String → String → String → String → String → Bool → Spec
spec component source protocol parser_version normalization_source category severity risk_level
      alert_candidate =
    record {
      category = category;
      severity = severity;
      risk_level = risk_level;
      component = component;
      source = source;
      protocol = protocol;
      parser_version = parser_version;
      normalization_source = normalization_source;
      alert_candidate = alert_candidate;
    }

abbrev vault : String → String → String → Bool → Spec
vault = spec "vault" "gds_events" "http" "v3.4.gds_pki_lifecycle" "gds_pki_lifecycle"

abbrev trust_artifact : String → String → String → Bool → Spec
trust_artifact =
    spec "trust_artifact" "trust_artifact" "http" "v3.4.gds_pki_lifecycle" "gds_pki_lifecycle"

abbrev client_lifecycle : String → String → String → Bool → Spec
client_lifecycle =
    spec "gds_client_lifecycle" "gds_client_lifecycle" "http" "v3.3.gds_client_lifecycle"
      "gds_client_lifecycle"

abbrev opcua_facade : String → String → String → Bool → Spec
opcua_facade =
    spec "gds_opcua_facade" "gds_opcua_facade" "opcua" "v3.3.gds_opcua_facade" "gds_opcua_facade"

-- gdsContractSpecs
abbrev pub contract_specs : Map Spec
contract_specs =
    ("vault_tls_verified", vault "pki_lifecycle" "info" "LOW" false)
    ∷ ("vault_tls_insecure_fallback", vault "security" "warning" "HIGH" true)
    ∷ ("vault_crl_checked", vault "pki_lifecycle" "info" "LOW" false)
    ∷ ("vault_crl_expiring", vault "pki_lifecycle" "warning" "MEDIUM" true)
    ∷ ("vault_crl_expired", vault "pki_lifecycle" "critical" "CRITICAL" true)
    ∷ ("vault_crl_rotated", vault "pki_lifecycle" "info" "LOW" false)
    ∷ ("trust_artifact_regenerated", trust_artifact "pki_trust_sync" "info" "LOW" false)
    ∷ ("trust_artifact_publish_failed", trust_artifact "pki_trust_sync" "error" "HIGH" true)
    ∷ ("client_trust_pull_success", client_lifecycle "pki_trust_sync" "info" "LOW" false)
    ∷ ("client_trust_apply_success", client_lifecycle "pki_trust_sync" "info" "LOW" false)
    ∷ (
      "client_certificate_renew_success",
      client_lifecycle "certificate_lifecycle" "info" "LOW" false,
    )
    ∷ ("client_gds_validation_success", client_lifecycle "pki_lifecycle" "info" "LOW" false)
    ∷ ("client_gds_validation_failed", client_lifecycle "pki_lifecycle" "warning" "HIGH" true)
    ∷ ("gds_opcua_method_called", opcua_facade "access_control" "info" "LOW" false)
    ∷ ("gds_opcua_method_allowed", opcua_facade "access_control" "info" "LOW" false)
    ∷ ("gds_opcua_method_denied", opcua_facade "access_control" "warning" "HIGH" true)
    ∷ ("gds_opcua_invalid_input", opcua_facade "access_control" "warning" "MEDIUM" true)
    ∷ ("gds_opcua_rate_limited", opcua_facade "access_control" "warning" "MEDIUM" true)
    ∷ ("gds_opcua_internal_api_failed", opcua_facade "error" "error" "HIGH" true)
    ∷ (
      "gds_opcua_sensitive_material_blocked",
      opcua_facade "data_protection" "critical" "CRITICAL" true,
    )
    ∷ ("gds_opcua_method_completed", opcua_facade "system_health" "info" "LOW" false)
    ∷ []

-- The word of a text that names a message: the first after a colon, without quotes.
unfoldable pub word_of : String → String
word_of value =
    let text = to_lower (trim_space value) in
    let rest : String = elim (after_colon text) [ none ↦ text | some behind ↦ trim_space behind ] in
    trim_quotes (first_word rest)

-- canonicalGDSContractMessage
unfoldable pub canonical_contract_message : String → String
unfolding word_of
canonical_contract_message value = elim (lookup (word_of value) contract_specs) [
  | none ↦ ""
  | some s ↦ word_of value
]

-- The first candidate that names a message.
unfoldable pub first_canonical : (String → String) → List String → String
first_canonical canonical [] = ""
first_canonical canonical (candidate ∷ candidates) =
    let rest = first_canonical canonical candidates in
    let message = canonical candidate in if message == "" then rest else message

module _ (p : Platform) where
  -- parseGDSRawText
  unfoldable pub parse_raw_text : String → String
  parse_raw_text text =
      let message : String = elim (p.unmarshal_object text) [
        | none ↦ ""
        | some fields ↦ trim_space (first_string p fields ("log_message" ∷ []))
      ] in
      if not (message == "")
      then message
      else if starts_with (to_lower text) "gds_"
      then text
      else ""

  -- What a raw text adds to the candidates, given the keys to look for.
  unfoldable pub raw_candidates : List String → Map Value → List String
  unfolding parse_raw_text
  raw_candidates keys rec =
      let text = trim_space (string_any p (lookup "raw" rec)) in
      if text == ""
      then []
      else text ∷ parse_raw_text text ∷ (elim (p.unmarshal_object text) [
        | none ↦ []
        | some fields ↦ first_string p fields keys ∷ []
      ])

  abbrev contract_keys : List String
  contract_keys = "message" ∷ "event_type" ∷ "gds_action" ∷ "action" ∷ "log_message" ∷ []

  -- extractGDSContractMessage
  unfoldable pub extract_contract_message : Map Value → String
  unfolding raw_candidates first_canonical canonical_contract_message
  extract_contract_message rec = first_canonical canonical_contract_message (
      first_string p rec contract_keys
      ∷ first_string p (map_any (lookup "tags" rec)) contract_keys
      ∷ first_string p (map_any (lookup "raw" rec)) contract_keys
      ∷ raw_candidates contract_keys rec)

  -- normalizeGDSContractEvent: the message and what the contract says of it.
  unfoldable pub normalize_contract_event : Map Value → Option (String × Spec)
  unfolding extract_contract_message
  normalize_contract_event rec =
      let canonical = extract_contract_message rec in
      elim (lookup canonical contract_specs) [ none ↦ none | some s ↦ some (canonical, s) ]
