-- ===== src/Receivers/Vault/Classify.antt =====
-- classifyVaultAudit of internal/ingest/vault_audit.go: what an audit record is about.
use text.Mathlib.Text.{starts_with}
use dmz_collector.Base.{
  String, Bool, true, false, ◌&&◌, ◌||◌, not, List, [], ◌∷◌, ◌≡◌, refl, if◌then◌else◌, ◌==◌, member,
}
use dmz_collector.Receivers.Cases.{first_case}
use dmz_collector.Text.{to_lower, contains}
use dmz_collector.Text.Parts.{ends_with}

-- vaultAuditClassification
pub record AuditClass : Type 0 where
  pub message : String
  pub category : String
  pub severity : String
  pub risk_level : String
  pub alert_candidate : Bool

abbrev pub class : String → String → String → String → Bool → AuditClass
class message category severity risk_level alert_candidate = record {
  message = message;
  category = category;
  severity = severity;
  risk_level = risk_level;
  alert_candidate = alert_candidate;
}

-- The tests after the suppressed requests, in the order of the code: the path and the error are in
-- lower case, `text` is the error as it came.
abbrev pub audit_cases :
    String → String → String → String → String → String → List (Bool × AuditClass)
audit_cases p op text error display_name audit_type =
    let failed = not (text == "") in
    let secret = starts_with p "secret/" || contains p "/data/" in
    (
      starts_with p "sys/audit" && failed,
      class "vault_audit_log_failure" "security" "critical" "CRITICAL" true,
    )
    ∷ (
      contains error "permission denied" || contains error "policy",
      class "vault_policy_violation" "security" "critical" "CRITICAL" true,
    )
    ∷ (
      starts_with p "auth/" && failed,
      class "vault_auth_failure" "access_control" "warning" "HIGH" true,
    )
    ∷ (
      contains p "/revoke" || ends_with p "revoke",
      class "vault_pki_revoke" "certificate_lifecycle" "warning" "HIGH" true,
    )
    ∷ (
      contains p "/issue/" || ends_with p "/issue",
      class "vault_pki_issue" "pki_lifecycle" "info" "LOW" false,
    )
    ∷ (
      contains p "/sign/" || ends_with p "/sign",
      class "vault_pki_sign" "pki_lifecycle" "info" "LOW" false,
    )
    ∷ (
      ends_with p "/ca_chain" || contains p "/ca_chain/",
      class "vault_pki_ca_chain_read" "pki_validation" "info" "LOW" false,
    )
    ∷ (
      ends_with p "/crl/pem" || contains p "/crl/",
      class "vault_pki_crl_read" "pki_validation" "info" "LOW" false,
    )
    ∷ (
      contains p "/tidy" || ends_with p "tidy",
      class "vault_pki_tidy" "pki_lifecycle" "info" "LOW" false,
    )
    ∷ (
      contains p "lease" && contains p "renew",
      class "vault_lease_renewed" "pki_lifecycle" "info" "LOW" false,
    )
    ∷ (
      contains p "lease" && contains p "expire",
      class "vault_lease_expired" "pki_lifecycle" "warning" "HIGH" true,
    )
    ∷ (
      starts_with p "auth/token/create",
      class "vault_token_created" "access_control" "info" "LOW" false,
    )
    ∷ (
      starts_with p "auth/token/revoke",
      class "vault_token_revoked" "access_control" "info" "LOW" false,
    )
    ∷ (
      starts_with p "auth/" && (text == "") && (audit_type == "response"),
      class "vault_auth_success" "access_control" "info" "LOW" false,
    )
    ∷ (
      (display_name == "root")
          && (audit_type == "response")
          && not (starts_with p "auth/token/lookup-self"),
      class "vault_root_token_used" "security" "critical" "CRITICAL" true,
    )
    ∷ (
      secret && member op ("read" ∷ "list" ∷ []),
      class "vault_secret_read" "operator_action" "info" "LOW" false,
    )
    ∷ (
      secret && member op ("create" ∷ "update" ∷ "patch" ∷ []),
      class "vault_secret_write" "operator_action" "warning" "MEDIUM" false,
    )
    ∷ (secret && (op == "delete"), class "vault_secret_delete" "security" "warning" "HIGH" true)
    ∷ (failed, class "vault_policy_violation" "security" "critical" "CRITICAL" true)
    ∷ []

abbrev pub other_request : AuditClass
other_request = class "vault_request" "operator_action" "info" "LOW" false

-- classifyVaultAudit
unfoldable pub classify_vault_audit : String → String → String → String → String → AuditClass
unfolding first_case
classify_vault_audit path operation text display_name audit_type =
    first_case
      (((audit_type == "request") && (text == ""), class "" "" "" "" false)
        ∷ audit_cases (to_lower path) (to_lower operation) text (to_lower text) display_name
            audit_type)
      other_request

-- Any request without an error is suppressed; all else is classified by the rest of the tests.
pub classify_vault_audit_lem :
    (path operation text display_name audit_type : String)
    → classify_vault_audit path operation text display_name audit_type ≡ (
        if (audit_type == "request") && (text == "")
        then class "" "" "" "" false
        else first_case
            (audit_cases
              (to_lower path)
              (to_lower operation)
              text
              (to_lower text)
              display_name
              audit_type)
            other_request)
unfolding classify_vault_audit first_case
classify_vault_audit_lem path operation text display_name audit_type = refl
