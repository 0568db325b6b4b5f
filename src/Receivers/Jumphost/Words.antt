-- ===== src/Receivers/Jumphost/Words.antt =====
-- The words of internal/ingest/jumphost_events.go: keys, messages, categories, severities and risks,
-- and what makes a key or a text sensitive, noise or of high value.
use text.Mathlib.Text.{starts_with}
use dmz_collector.Base.{String, Bool, ◌||◌, List, [], ◌∷◌, if◌then◌else◌, ◌==◌, member, exists}
use dmz_collector.Text.{to_lower, trim_space, contains, switch}
use dmz_collector.Text.Parts.{underscored, collapsed}

abbrev pub asset_name : String
asset_name = "labshock_jumphost"

abbrev pub asset_ip : String
asset_ip = "192.168.10.5"

abbrev pub source : String
source = "jumphost_events"

abbrev pub sourcetype : String
sourcetype = "labshock:dmz:jumphost"

abbrev pub parser_version : String
parser_version = "v1.jumphost_dmz_normalization"

-- jumphostMetadataKeys
abbrev pub metadata_keys : List String
metadata_keys =
    "src_ip" ∷ "dst_ip" ∷ "user" ∷ "sudo_command" ∷ "target_zone" ∷ "session_id"
    ∷ "duration_seconds" ∷ "mfa_method" ∷ "tty" ∷ "pam_service" ∷ "remote_addr" ∷ "src_port"
    ∷ "cert_id" ∷ "cert_serial" ∷ "ca_fingerprint" ∷ "offered_algorithms" ∷ "parser_hint" ∷ []

-- jumphostClassification
pub record Class : Type 0 where
  pub message : String
  pub category : String
  pub severity : String
  pub risk_level : String
  pub alert_candidate : Bool

abbrev pub unknown : String
unknown = "jump_event_unknown"

abbrev pub messages : List String
messages =
    "jump_login_attempt" ∷ "jump_login_success" ∷ "jump_login_failed" ∷ "jump_logout"
    ∷ "jump_sudo_executed" ∷ "jump_sudo_failed" ∷ "jump_session_opened" ∷ "jump_session_closed"
    ∷ "jump_heartbeat" ∷ "jump_unauthorized_zone_access" ∷ "jump_mfa_success" ∷ "jump_mfa_failed"
    ∷ "jump_event_unknown" ∷ "jump_cert_login_success" ∷ "jump_invalid_user"
    ∷ "jump_preauth_connection_closed" ∷ "jump_forward_denied" ∷ "jump_session_open"
    ∷ "jump_session_close" ∷ "jump_password_auth_disabled" ∷ "jump_bastion_policy_applied"
    ∷ "jump_cert_accepted" ∷ "jump_pubkey_postponed" ∷ "jump_hostkey_mismatch"
    ∷ "jump_session_disconnected" ∷ "jump_session_closed_user" ∷ "jump_account_locked"
    ∷ "jump_connection_started" ∷ []

-- normalizeJumphostMessage
unfoldable pub normalize_message : String → String
normalize_message v =
    let msg = to_lower (trim_space (underscored v)) in if member msg messages then msg else ""

-- The category and the severity of a message, and those of any other.
abbrev pub classes : List (List String × (String × String))
classes =
    (
      "jump_login_attempt" ∷ "jump_login_success" ∷ "jump_cert_login_success" ∷ "jump_mfa_success"
          ∷ "jump_cert_accepted" ∷ "jump_pubkey_postponed" ∷ "jump_connection_started" ∷ [],
      ("access_control", "info"),
    )
    ∷ (
      "jump_login_failed" ∷ "jump_invalid_user" ∷ "jump_mfa_failed" ∷ "jump_account_locked" ∷ [],
      ("access_control", "warning"),
    )
    ∷ (
      "jump_logout" ∷ "jump_session_opened" ∷ "jump_session_closed" ∷ "jump_session_open"
          ∷ "jump_session_close" ∷ "jump_preauth_connection_closed" ∷ "jump_session_disconnected"
          ∷ "jump_session_closed_user" ∷ [],
      ("session", "info"),
    )
    ∷ (
      "jump_sudo_executed" ∷ "jump_sudo_failed" ∷ "jump_forward_denied" ∷ "jump_hostkey_mismatch"
          ∷ [],
      ("security", "warning"),
    )
    ∷ ("jump_unauthorized_zone_access" ∷ [], ("security", "critical"))
    ∷ (
      "jump_password_auth_disabled" ∷ "jump_bastion_policy_applied" ∷ [],
      ("security_config", "info"),
    )
    ∷ ("jump_heartbeat" ∷ [], ("system_health", "info"))
    ∷ []

abbrev pub other_class : String × String
other_class = ("system", "info")

-- classifyJumphostMessage
unfoldable pub classify : String → String × String
classify message = switch message classes other_class

abbrev pub categories : List String
categories =
    "system_health" ∷ "access_control" ∷ "security" ∷ "security_config" ∷ "session" ∷ "error"
    ∷ "system" ∷ []

-- validJumphostCategory
unfoldable pub valid_category : String → String
valid_category v = let w = to_lower (trim_space v) in if member w categories then w else ""

abbrev pub severities : List String
severities = "info" ∷ "warning" ∷ "error" ∷ "critical" ∷ []

-- validJumphostSeverity
unfoldable pub valid_severity : String → String
valid_severity v =
    let w = to_lower (trim_space v) in
    if member w severities then w else if w == "warn" then "warning" else ""

-- riskForJumphost
unfoldable pub risk_for : String → String → String → String
risk_for message category severity =
    if (message == "jump_unauthorized_zone_access") || (severity == "critical")
    then "CRITICAL"
    else if member message ("jump_sudo_executed" ∷ "jump_sudo_failed" ∷ "jump_forward_denied" ∷ [])
        || (severity == "warning")
        || (category == "security")
    then "MEDIUM"
    else if severity == "error"
    then "HIGH"
    else "LOW"

abbrev pub alert_messages : List String
alert_messages =
    "jump_login_failed" ∷ "jump_invalid_user" ∷ "jump_sudo_executed" ∷ "jump_sudo_failed"
    ∷ "jump_unauthorized_zone_access" ∷ "jump_mfa_failed" ∷ "jump_forward_denied"
    ∷ "jump_hostkey_mismatch" ∷ "jump_account_locked" ∷ []

-- jumphostAlertCandidate
unfoldable pub alert_candidate : String → String → String → Bool
alert_candidate message category severity =
    member message alert_messages
    || member severity ("warning" ∷ "error" ∷ "critical" ∷ [])
    || (category == "security")

-- isJumphostSensitiveKey
unfoldable pub is_sensitive_key : String → Bool
is_sensitive_key key =
    let k = collapsed (to_lower (trim_space key)) in
    (k == "key")
    || exists (contains k)
        ("password" ∷ "token" ∷ "secret" ∷ "authorization" ∷ "private_key" ∷ "credential" ∷ [])

-- looksLikeJumphostSecret
unfoldable pub looks_like_secret : String → Bool
looks_like_secret value =
    let lower = to_lower value in
    contains lower "-----begin " || starts_with (trim_space lower) "bearer "

-- isJumphostNoise
unfoldable pub is_noise : String → Bool
is_noise message = exists (contains (to_lower message)) (
    "crond" ∷ "run-parts" ∷ "periodic" ∷ "wakeup dt" ∷ "file root" ∷ "user root pid"
    ∷ "child running /bin/sh" ∷ "user child is on pid" ∷ [])

-- isJumphostHighValue
unfoldable pub is_high_value : String → Bool
is_high_value message = member message (
    "jump_cert_login_success" ∷ "jump_forward_denied" ∷ "jump_account_locked"
    ∷ "jump_hostkey_mismatch" ∷ [])

-- looksLikeJumphostSSHLine
unfoldable pub looks_like_ssh_line : String → Bool
looks_like_ssh_line line = exists (contains (to_lower line)) (
    "accepted certificate id" ∷ "postponed publickey for" ∷ "unable to negotiate with"
    ∷ "received disconnect from" ∷ "disconnected from user" ∷ "connection from "
    ∷ "accepted publickey for" ∷ "failed publickey for" ∷ "failed password for" ∷ "invalid user"
    ∷ "connection closed by invalid user" ∷ "not allowed because account is locked"
    ∷ "user child is on pid" ∷ [])
