-- ===== src/Receivers/OpcuaDmz/Words.antt =====
-- The words of internal/ingest/opcua_dmz_events.go: keys, messages, categories and severities, and
-- what makes a key or a text sensitive.
use Prim.Native.String.{len}
use text.Mathlib.Text.{starts_with}
use dmz_collector.Base.{
  String, Bool, false, ◌&&◌, ◌||◌, List, [], ◌∷◌, if◌then◌else◌, ◌==◌, member, exists, ltb,
}
use dmz_collector.Text.{to_lower, trim_space, contains, switch}
use dmz_collector.Text.Parts.{underscored, collapsed}

abbrev pub asset_name : String
asset_name = "opcua_dmz_gateway"

abbrev pub asset_ip : String
asset_ip = "192.168.10.20"

abbrev pub sourcetype : String
sourcetype = "labshock:dmz:opcua_gateway"

abbrev pub parser_version : String
parser_version = "v1.opcua_dmz_normalization"

abbrev pub safe_raw_keys : List String
safe_raw_keys =
    "event_type" ∷ "component" ∷ "generated_at" ∷ "application_uri" ∷ "target" ∷ "runtime_side"
    ∷ "endpoint" ∷ "ot_endpoint" ∷ "ot_username" ∷ "influx_host" ∷ "influx_port" ∷ "status"
    ∷ "status_name" ∷ "status_code" ∷ "security_policy" ∷ "security_mode" ∷ "namespace_uri"
    ∷ "trust_index" ∷ "trust_path" ∷ "cert_path" ∷ "key_path" ∷ "certificate_found"
    ∷ "private_key_found" ∷ "southbound_initialized" ∷ "southbound_connected" ∷ "poll_interval_ms"
    ∷ "health_interval_seconds" ∷ "detail" ∷ []

abbrev pub tag_keys : List String
tag_keys =
    "event_type" ∷ "application_uri" ∷ "target" ∷ "runtime_side" ∷ "endpoint" ∷ "status"
    ∷ "status_name" ∷ "status_code" ∷ "security_policy" ∷ "security_mode" ∷ "namespace_uri" ∷ []

-- opcuaDMZClassification
pub record Class : Type 0 where
  pub message : String
  pub category : String
  pub severity : String
  pub risk_level : String
  pub alert_candidate : Bool

unfoldable pub normalize_message : String → String
normalize_message v =
    let msg = to_lower (trim_space (underscored v)) in
    if starts_with msg "opcua_dmz_" then msg else ""

unfoldable pub normalize_event_type : String → String
normalize_event_type v = to_lower (trim_space (underscored v))

-- The category and the severity of a message, and those of any other.
abbrev pub classes : List (List String × (String × String))
classes =
    (
      ("opcua_dmz_started" ∷ "opcua_dmz_stopped" ∷ "opcua_dmz_heartbeat"
          ∷ "opcua_dmz_northbound_started" ∷ "opcua_dmz_southbound_initialized" ∷ []),
      ("system_health", "info"),
    )
    ∷ (
      ("opcua_dmz_northbound_failed" ∷ "opcua_dmz_influx_unavailable"
          ∷ "opcua_dmz_client_alloc_failed" ∷ []),
      ("error", "critical"),
    )
    ∷ (("opcua_dmz_influx_write_failed" ∷ []), ("error", "warning"))
    ∷ (("opcua_dmz_southbound_connected" ∷ []), ("opcua_session", "info"))
    ∷ (
      ("opcua_dmz_southbound_connect_failed" ∷ "opcua_dmz_southbound_poll_failed"
          ∷ "opcua_dmz_namespace_failed" ∷ []),
      ("opcua_session", "warning"),
    )
    ∷ (
      ("opcua_dmz_pki_load_failed" ∷ "opcua_dmz_trust_load_failed"
          ∷ "opcua_dmz_security_config_failed" ∷ []),
      ("pki_validation", "critical"),
    )
    ∷ (("opcua_dmz_gds_bootstrap_failed" ∷ []), ("pki_trust_sync", "critical"))
    ∷ (
      ("opcua_dmz_gds_trust_update_detected" ∷ "opcua_dmz_gds_trust_pull_success"
          ∷ "opcua_dmz_gds_trust_applied" ∷ []),
      ("pki_trust_sync", "info"),
    )
    ∷ (
      ("opcua_dmz_gds_trust_pull_failed" ∷ "opcua_dmz_gds_trust_apply_failed" ∷ []),
      ("pki_trust_sync", "warning"),
    )
    ∷ (
      ("opcua_dmz_gds_certificate_enrolled" ∷ "opcua_dmz_gds_certificate_renewed"
          ∷ "opcua_dmz_gds_certificate_applied" ∷ []),
      ("certificate_lifecycle", "info"),
    )
    ∷ (
      ("opcua_dmz_gds_certificate_renewal_due" ∷ "opcua_dmz_gds_certificate_renewal_failed" ∷ []),
      ("certificate_lifecycle", "warning"),
    )
    ∷ []

abbrev pub other_class : String × String
other_class = ("system_health", "info")

unfoldable pub classify : String → String × String
classify message = switch (normalize_message message) classes other_class

abbrev pub event_types : List (List String × String)
event_types =
    (("started" ∷ "gateway_started" ∷ []), "opcua_dmz_started")
    ∷ (("stopped" ∷ "gateway_stopped" ∷ []), "opcua_dmz_stopped")
    ∷ (("heartbeat" ∷ "gateway_heartbeat" ∷ []), "opcua_dmz_heartbeat")
    ∷ (("northbound_started" ∷ []), "opcua_dmz_northbound_started")
    ∷ (("northbound_failed" ∷ []), "opcua_dmz_northbound_failed")
    ∷ (("influx_unavailable" ∷ []), "opcua_dmz_influx_unavailable")
    ∷ (("influx_write_failed" ∷ []), "opcua_dmz_influx_write_failed")
    ∷ (("southbound_initialized" ∷ []), "opcua_dmz_southbound_initialized")
    ∷ (("southbound_connected" ∷ []), "opcua_dmz_southbound_connected")
    ∷ (("southbound_connect_failed" ∷ []), "opcua_dmz_southbound_connect_failed")
    ∷ (("southbound_poll_failed" ∷ []), "opcua_dmz_southbound_poll_failed")
    ∷ (("namespace_failed" ∷ []), "opcua_dmz_namespace_failed")
    ∷ (("client_alloc_failed" ∷ []), "opcua_dmz_client_alloc_failed")
    ∷ (("pki_load_failed" ∷ []), "opcua_dmz_pki_load_failed")
    ∷ (("trust_load_failed" ∷ []), "opcua_dmz_trust_load_failed")
    ∷ (("security_config_failed" ∷ []), "opcua_dmz_security_config_failed")
    ∷ (("gds_bootstrap_failed" ∷ "bootstrap_failed" ∷ []), "opcua_dmz_gds_bootstrap_failed")
    ∷ (("trust_update_detected" ∷ []), "opcua_dmz_gds_trust_update_detected")
    ∷ (("trust_pull_completed" ∷ "trust_pull_success" ∷ []), "opcua_dmz_gds_trust_pull_success")
    ∷ (("trust_pull_failed" ∷ []), "opcua_dmz_gds_trust_pull_failed")
    ∷ (("trust_applied" ∷ []), "opcua_dmz_gds_trust_applied")
    ∷ (("trust_apply_failed" ∷ []), "opcua_dmz_gds_trust_apply_failed")
    ∷ (("certificate_enrolled" ∷ []), "opcua_dmz_gds_certificate_enrolled")
    ∷ (("certificate_renewal_due" ∷ []), "opcua_dmz_gds_certificate_renewal_due")
    ∷ (("certificate_renewed" ∷ []), "opcua_dmz_gds_certificate_renewed")
    ∷ (("certificate_applied" ∷ []), "opcua_dmz_gds_certificate_applied")
    ∷ (("certificate_renewal_failed" ∷ []), "opcua_dmz_gds_certificate_renewal_failed")
    ∷ []

unfoldable pub message_for_event_type : String → String
message_for_event_type event_type =
    switch (normalize_event_type event_type) event_types
      (if starts_with event_type "opcua_dmz_" then event_type else "")

abbrev pub categories : List String
categories =
    "system_health" ∷ "opcua_session" ∷ "pki_validation" ∷ "pki_trust_sync"
    ∷ "certificate_lifecycle" ∷ "error" ∷ "security" ∷ "access_control" ∷ []

unfoldable pub valid_category : String → String
valid_category v = let w = to_lower (trim_space v) in if member w categories then w else ""

abbrev pub severities : List String
severities = "info" ∷ "warning" ∷ "error" ∷ "critical" ∷ []

unfoldable pub valid_severity : String → String
valid_severity v =
    let w = to_lower (trim_space v) in
    if member w severities then w else if w == "warn" then "warning" else ""

abbrev pub severity_risks : List (List String × String)
severity_risks = ("critical" ∷ "error" ∷ [], "HIGH") ∷ ("warning" ∷ [], "MEDIUM") ∷ []

abbrev pub category_risks : List (List String × String)
category_risks = ("security" ∷ "access_control" ∷ [], "MEDIUM") ∷ []

-- riskForOPCUADMZ: the category counts where the severity says nothing.
unfoldable pub risk_for : String → String → String
risk_for severity category =
    switch (to_lower (trim_space severity)) severity_risks
      (switch (to_lower (trim_space category)) category_risks "LOW")

unfoldable pub alert_candidate : String → String → String → Bool
alert_candidate message category severity =
    member (to_lower severity) ("warning" ∷ "error" ∷ "critical" ∷ [])
    || member (to_lower category) ("security" ∷ "access_control" ∷ "pki_validation" ∷ [])
    || exists (contains (to_lower message)) ("failed" ∷ "unavailable" ∷ "bootstrap_failed" ∷ [])

-- isOPCUADMZSensitiveKey
unfoldable pub is_sensitive_key : String → Bool
is_sensitive_key key =
    let k = collapsed (to_lower (trim_space key)) in
    if member k ("cert_path" ∷ "key_path" ∷ "trust_path" ∷ "private_key_found" ∷ [])
    then false
    else member k (
        "token" ∷ "authorization" ∷ "password" ∷ "secret" ∷ "secret_id" ∷ "role_id" ∷ "private_key"
        ∷ "privatekey" ∷ "pem" ∷ "csr" ∷ "crl" ∷ "certificate_pem" ∷ "certificate_body"
        ∷ "cert_body" ∷ "crl_body" ∷ "ca_chain" ∷ "signature" ∷ [])
      || exists (contains k) (
          "token" ∷ "authorization" ∷ "password" ∷ "secret" ∷ "secret_id" ∷ "role_id"
          ∷ "private_key" ∷ "privatekey" ∷ "certificate_pem" ∷ "certificate_body" ∷ "cert_body"
          ∷ "crl_body" ∷ "ca_chain" ∷ [])

-- looksLikeOPCUADMZSecret
unfoldable pub looks_like_secret : String → Bool
looks_like_secret value =
    let lower = to_lower value in
    contains lower "-----begin "
    || contains lower "-----end "
    || (contains lower "bearer " && ltb 7 (len value))
