-- ===== src/Receivers/Vault.antt =====
-- internal/ingest/vault_audit.go: the receiver of Vault's audit log.
pub mod Classify
pub mod Record
pub mod Audit
pub mod Many
use text.Mathlib.Text.{starts_with}
use dmz_collector.Base.{
  String, Bool, true, false, List, [], ◌∷◌, Option, none, some, Map, lookup, insert, if◌then◌else◌,
  ◌==◌, not, keep,
}
use dmz_collector.Text.{to_lower, trim_space, contains}
use dmz_collector.Text.Parts.{trim_path, split_lines}
use dmz_collector.Value.{Value}
use dmz_collector.Event.{Platform, Event, ensure_defaults}
use dmz_collector.Disk.{Codec, zero_event}
use dmz_collector.Receivers.{Refusal, empty_body, not_json, suppressed, Reading, read, refused}
use dmz_collector.Receivers.Rows.{some_of, read_rows, read_lines}
use Classify.{AuditClass}
use Record.{map_value, string_value, safe_raw, audit_tags, compact_audit_map, class_of_record}

abbrev asset_name : String
asset_name = "labshock_vault"

abbrev asset_ip : String
asset_ip = "192.168.10.10"

module _ (p : Platform) (c : Codec) where
  -- NormalizeVaultAudit past json.Unmarshal and the suppressed records.
  unfoldable pub audit_event : String → String → Map Value → AuditClass → Event
  unfolding map_value string_value safe_raw audit_tags compact_audit_map
  audit_event now raw rec class =
      let req = map_value rec "request" in
      let path = trim_path (trim_space (string_value p req "path")) in
      let operation = to_lower (trim_space (string_value p req "operation")) in
      let text = trim_space (string_value p rec "error") in
      let audit_type = to_lower (trim_space (string_value p rec "type")) in
      let ts = trim_space (string_value p rec "time") in
      let e : Event = record {
        id = "";
        timestamp = if ts == "" then now else ts;
        received_at = now;
        zone = "DMZ";
        source = "vault_audit";
        source_type = "vault";
        asset_name = asset_name;
        asset_ip = asset_ip;
        severity = class.severity;
        protocol = "vault_audit_file";
        event_category = class.category;
        message = class.message;
        raw = c.object_text (compact_audit_map (safe_raw p rec path operation text audit_type));
        tags = compact_audit_map (audit_tags p rec path operation text audit_type class);
        extra_fields = [];
        original_raw = "";
      } in
      record (ensure_defaults p now e) { original_raw = raw }

  -- NormalizeVaultAudit: `none` is an error of encoding/json.
  unfoldable pub normalize_vault_audit : String → String → Option Event
  unfolding audit_event
  normalize_vault_audit now raw = elim (p.unmarshal_object raw) [
    | none ↦ none
    | some rec ↦ some (
        if (class_of_record p rec).message == ""
        then zero_event
        else audit_event now raw rec (class_of_record p rec))
  ]

  unfoldable pub read_record : String → String → Reading Event
  unfolding normalize_vault_audit
  read_record now raw = elim (normalize_vault_audit now raw) [
    | none ↦ refused not_json
    | some e ↦ read e
  ]

-- The suppressed records of a reading are passed over.
unfoldable pub passing_over : Reading (List Event) → Reading (List Event)
passing_over (refused r) = refused r
passing_over (read es) = read (keep (λ e. not (e.message == "")) es)

module _ (p : Platform) (c : Codec) (now : String) where
  unfoldable pub read_log : String → Reading (List Event)
  unfolding some_of passing_over read_lines read_record
  read_log raw = some_of (passing_over (read_lines (read_record p c now) (split_lines raw)))

  -- NormalizeVaultAuditMany, at one reading of the clock for the whole body.
  unfoldable pub normalize_vault_audit_many : String → Reading (List Event)
  unfolding passing_over read_rows read_record read_log
  normalize_vault_audit_many body =
      let raw = trim_space body in
      if raw == ""
      then refused empty_body
      else if starts_with raw "["
      then elim (p.unmarshal_array raw) [
        | none ↦ refused not_json
        | some rows ↦ passing_over (read_rows (read_record p c now) rows)
      ]
      else if starts_with raw "{"
      then elim (normalize_vault_audit p c now raw) [
        | some e ↦ if e.message == "" then refused suppressed else read (e ∷ [])
        | none ↦ if contains raw "\n" then read_log raw else refused not_json
      ]
      else read_log raw
