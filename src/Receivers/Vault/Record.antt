-- ===== src/Receivers/Vault/Record.antt =====
-- The fields of an audit record that NormalizeVaultAudit of internal/ingest/vault_audit.go keeps.
use dmz_collector.Base.{
  String, Bool, true, false, List, [], ◌∷◌, Option, some, Map, lookup, insert, if◌then◌else◌, ◌==◌,
  not, keep,
}
use dmz_collector.Text.{to_lower, trim_space}
use dmz_collector.Text.Parts.{trim_path}
use dmz_collector.Value.{Value, null, bool, str, arr, Items, no_items, item}
use dmz_collector.Event.{Platform}
use dmz_collector.Receivers.Json.{map_any, string_any}
use dmz_collector.Receivers.Vault.Classify.{AuditClass, classify_vault_audit}

abbrev pub sourcetype : String
sourcetype = "labshock:dmz:vault"

-- mapValue
unfoldable pub map_value : Map Value → String → Map Value
map_value m key = map_any (lookup key m)

-- firstNonEmptyString: the value is given as it is.
unfoldable pub first_non_empty_string : List String → String
first_non_empty_string [] = ""
first_non_empty_string (v ∷ vs) =
    let rest = first_non_empty_string vs in if trim_space v == "" then rest else v

-- compactMap: the arrays that it meets are those of stringSlice.
unfoldable pub is_filled : Value → Bool
is_filled null = false
is_filled (str s) = not (trim_space s == "")
is_filled (arr no_items) = false
is_filled v = true

unfoldable pub compact_audit_map : Map Value → Map Value
unfolding is_filled
compact_audit_map m = keep (λ kv. is_filled kv.1) m

module _ (p : Platform) where
  -- stringValue
  unfoldable pub string_value : Map Value → String → String
  string_value m key = string_any p (lookup key m)

  trimmed_items : Items → Items
  trimmed_items no_items = no_items
  trimmed_items (item v vs) =
      let rest = trimmed_items vs in
      let s = trim_space (p.sprint v) in if s == "" then rest else item (str s) rest

  -- stringSlice
  unfoldable pub string_slice : Option Value → Value
  unfolding trimmed_items
  string_slice (some (arr vs)) = arr (trimmed_items vs)
  string_slice _ = arr no_items

  -- safeRaw of NormalizeVaultAudit
  unfoldable pub safe_raw : Map Value → String → String → String → String → Map Value
  unfolding map_value string_value string_slice first_non_empty_string
  safe_raw rec path operation text audit_type =
      let req = map_value rec "request" in
      let auth = map_value rec "auth" in
      let answer = map_value (map_value rec "response") "data" in
      ("audit_type", str audit_type)
      ∷ ("vault_operation", str operation)
      ∷ ("vault_path", str path)
      ∷ ("vault_namespace", str (string_value (map_value req "namespace") "id"))
      ∷ ("request_id", str (string_value req "id"))
      ∷ ("mount_type", str (string_value req "mount_type"))
      ∷ ("mount_point", str (string_value req "mount_point"))
      ∷ ("mount_accessor", str (string_value req "mount_accessor"))
      ∷ ("remote_address", str (string_value req "remote_address"))
      ∷ ("remote_port", str (string_value req "remote_port"))
      ∷ ("display_name", str (string_value auth "display_name"))
      ∷ ("policy_names", string_slice (lookup "policies" auth))
      ∷ ("token_policies", string_slice (lookup "token_policies" auth))
      ∷ ("client_token_accessor", str (string_value req "client_token_accessor"))
      ∷ ("error", str text)
      ∷ ("common_name", str (string_value answer "common_name"))
      ∷ (
        "serial_number",
        str (
            first_non_empty_string
              (string_value answer "serial_number" ∷ string_value answer "serial" ∷ [])),
      )
      ∷ (
        "ttl",
        str (
            first_non_empty_string
              (string_value answer "ttl" ∷ string_value answer "lease_duration" ∷ [])),
      )
      ∷ []

  -- tags of NormalizeVaultAudit
  unfoldable pub audit_tags : Map Value → String → String → String → String → AuditClass → Map Value
  unfolding map_value string_value
  audit_tags rec path operation text audit_type class =
      let req = map_value rec "request" in
      let fixed : Map Value =
        ("component", str "vault")
        ∷ ("zone", str "DMZ")
        ∷ ("collector_decision_hint", str "store_forward")
        ∷ ("risk_level", str class.risk_level)
        ∷ ("normalized", bool true)
        ∷ ("normalization_source", str "logs_by_sources_md")
        ∷ ("parser_version", str "v2.logs_by_sources_md")
        ∷ ("splunk_sourcetype", str sourcetype)
        ∷ ("siem_index_hint", str "ot_security")
        ∷ ("vault_operation", str operation)
        ∷ ("vault_path", str path)
        ∷ ("vault_namespace", str (string_value (map_value req "namespace") "id"))
        ∷ ("client_token_accessor", str (string_value req "client_token_accessor"))
        ∷ ("remote_address", str (string_value req "remote_address"))
        ∷ ("mount_type", str (string_value req "mount_type"))
        ∷ ("audit_type", str audit_type)
        ∷ [] in
      let alerted =
        if class.alert_candidate then insert "alert_candidate" (bool true) fixed else fixed in
      let rooted =
        if string_value (map_value rec "auth") "display_name" == "root"
        then insert "root_token_used" (bool true) alerted
        else alerted in
      if text == "" then rooted else insert "error" (str text) rooted

  abbrev pub class_of_record : Map Value → AuditClass
  class_of_record rec =
      let req = map_value rec "request" in
      classify_vault_audit (trim_path (trim_space (string_value req "path")))
        (to_lower (trim_space (string_value req "operation")))
        (trim_space (string_value rec "error")) (string_value (map_value rec "auth") "display_name")
        (to_lower (trim_space (string_value rec "type")))
