-- ===== src/Receivers/Gds/Facade.antt =====
-- The OPC UA facade in internal/ingest/gds_events.go: its records, its messages and its events.
use text.Mathlib.Text.{starts_with}
use dmz_collector.Base.{
  String, Bool, true, false, not, ◌&&◌, ◌||◌, List, [], ◌∷◌, none, some, Map, lookup, insert,
  if◌then◌else◌, ◌==◌, member, exists,
}
use dmz_collector.Text.{to_lower, trim_space, contains, equal_fold}
use dmz_collector.Text.Parts.{collapsed}
use dmz_collector.Value.{Value, bool, str}
use dmz_collector.Event.{Platform, Event, ensure_defaults}
use dmz_collector.Disk.{Codec}
use dmz_collector.Receivers.Json.{map_any, string_any, first_string, compact_map, picked}
use dmz_collector.Receivers.Mask.{mask_map}
use dmz_collector.Receivers.Gds.Contract.{contract_specs, word_of, first_canonical, raw_candidates}
use dmz_collector.Receivers.Gds.Fields.{contract_tag_keys, copy_safe_field, promote_tags}

abbrev pub asset_name : String
asset_name = "labshock_gds"

abbrev pub asset_ip : String
asset_ip = "192.168.10.30"

abbrev pub sourcetype : String
sourcetype = "labshock:dmz:gds"

-- gdsClassification
pub record Class : Type 0 where
  pub message : String
  pub category : String
  pub severity : String
  pub risk_level : String
  pub alert_candidate : Bool

-- gdsOPCUAFacadeMetadataKeys
abbrev pub metadata_keys : List String
metadata_keys =
    "method_name" ∷ "method_class" ∷ "application_uri" ∷ "decision" ∷ "reason" ∷ "result_code"
    ∷ "duration_ms" ∷ "correlation_id" ∷ "opcua_session_id" ∷ "gds_action" ∷ "gds_family"
    ∷ "log_message" ∷ []

-- isGDSOPCUAFacadeSensitiveKey
unfoldable pub is_sensitive_key : String → Bool
is_sensitive_key key = member (collapsed (to_lower (trim_space key))) (
    "private_key" ∷ "key" ∷ "token" ∷ "secret" ∷ "password" ∷ "client_token" ∷ "secret_id"
    ∷ "role_id" ∷ "accessor" ∷ "authorization" ∷ "x_vault_token" ∷ "x_gds_agent_token" ∷ [])

-- looksLikeGDSOPCUAFacadeSecret
unfoldable pub looks_like_secret : String → Bool
looks_like_secret value =
    let lower = to_lower value in
    exists (contains lower) (
      "-----begin private key-----" ∷ "-----begin rsa private key-----"
      ∷ "-----begin ec private key-----" ∷ "-----end private key-----"
      ∷ "-----end rsa private key-----" ∷ "-----end ec private key-----" ∷ [])
    || starts_with (trim_space lower) "bearer "

unfoldable pub redacted : Map Value → Map Value
redacted = mask_map is_sensitive_key looks_like_secret

-- canonicalGDSOPCUAFacadeMessage
unfoldable pub canonical_facade_message : String → String
unfolding word_of
canonical_facade_message value =
    if starts_with (word_of value) "gds_opcua_" then word_of value else ""

-- classifyGDSOPCUAFacadeMessage. Every case of its switch is a key of the table, which is looked at
-- before.
unfoldable pub classify_facade_message : String → Class
classify_facade_message message =
    let canonical = to_lower (trim_space message) in
    elim (lookup canonical contract_specs) [
      | some s ↦ record {
        message = canonical;
        category = s.category;
        severity = s.severity;
        risk_level = s.risk_level;
        alert_candidate = s.alert_candidate;
      }
      | none ↦ record {
        message = message;
        category = "access_control";
        severity = "info";
        risk_level = "LOW";
        alert_candidate = false;
      }
    ]

-- The fixed tags of the facade, over those that came in.
unfoldable pub facade_tags : String → Map Value → Map Value
facade_tags risk_level tags = insert "risk_level" (str risk_level) (
    insert "collector_decision_hint" (str "store_forward") (
      insert "siem_index_hint" (str "ot_security") (
        insert "splunk_sourcetype" (str sourcetype) (
          insert "normalization_source" (str "gds_opcua_facade") (
            insert "facade_version" (str "v3.3.gds_opcua_facade") (
              insert "parser_version" (str "v3.3.gds_opcua_facade") (
                insert "normalized" (bool true) (
                  insert "zone" (str "DMZ") (
                    insert "purdue_zone" (str "dmz") (
                      insert "source_type" (str "gds")
                        (insert "component" (str "gds_opcua_facade") tags)))))))))))

-- The metadata of the raw object and of the record; that of the record counts.
unfoldable pub put_metadata : List String → Map Value → Map Value → Map Value → Map Value
unfolding copy_safe_field
put_metadata [] raw rec tags = tags
put_metadata (key ∷ keys) raw rec tags =
    put_metadata keys raw rec (copy_safe_field key rec (copy_safe_field key raw tags))

-- What a class says of alerts; a tag that came in stays where it says nothing.
unfoldable pub put_alert : Bool → Map Value → Map Value
put_alert candidate tags =
    if candidate
    then insert "alert_candidate" (bool true) tags
    else elim (lookup "alert_candidate" tags) [
      | some old ↦ tags
      | none ↦ insert "alert_candidate" (bool false) tags
    ]

module _ (p : Platform) where
  abbrev message_keys : List String
  message_keys = "message" ∷ "event_type" ∷ "gds_action" ∷ "log_message" ∷ []

  unfoldable pub facade_candidates : Map Value → List String
  unfolding raw_candidates
  facade_candidates rec =
      first_string p rec ("message" ∷ [])
      ∷ first_string p rec ("gds_action" ∷ [])
      ∷ first_string p rec ("log_message" ∷ [])
      ∷ first_string p (map_any (lookup "raw" rec)) message_keys
      ∷ first_string p (map_any (lookup "tags" rec)) message_keys
      ∷ raw_candidates p message_keys rec

  -- extractGDSOPCUAFacadeMessage
  unfoldable pub extract_facade_message : Map Value → String
  unfolding first_canonical canonical_facade_message facade_candidates
  extract_facade_message rec = first_canonical canonical_facade_message (facade_candidates rec)

  -- isGDSOPCUAFacadeEvent
  unfoldable pub is_facade_event : Map Value → Bool
  unfolding extract_facade_message
  is_facade_event rec =
      let tags = map_any (lookup "tags" rec) in
      (equal_fold (first_string p rec ("source_type" ∷ [])) "gds"
        && equal_fold (first_string p rec ("source" ∷ [])) "gds_opcua_facade")
      || equal_fold (string_any p (lookup "component" tags)) "gds_opcua_facade"
      || equal_fold (string_any p (lookup "parser_version" tags)) "v3.3.gds_opcua_facade"
      || not (extract_facade_message rec == "")

  abbrev time_keys : List String
  time_keys = "timestamp" ∷ "created_at" ∷ "generated_at" ∷ "reported_at" ∷ "ts" ∷ "time" ∷ []

  unfoldable pub facade_message : Map Value → String
  unfolding extract_facade_message
  facade_message rec =
      if extract_facade_message rec == ""
      then "gds_opcua_method_called"
      else extract_facade_message rec

  unfoldable pub raw_of : Map Value → Map Value
  unfolding redacted
  raw_of rec = redacted (map_any (lookup "raw" rec))

  -- The tags of the event before they are compacted.
  unfoldable pub tags_of : Class → Map Value → Map Value
  unfolding facade_tags put_metadata promote_tags put_alert raw_of redacted
  tags_of class rec = put_alert class.alert_candidate (
      promote_tags contract_tag_keys rec (raw_of rec) (
        put_metadata metadata_keys (raw_of rec) rec
          (facade_tags class.risk_level (redacted (map_any (lookup "tags" rec))))))

  -- buildGDSOPCUAFacadeEvent
  unfoldable pub build_facade_event : Codec → String → Map Value → Event
  unfolding facade_message classify_facade_message tags_of raw_of
  build_facade_event c now rec =
      let stated = first_string p rec time_keys in
      let class = classify_facade_message (facade_message rec) in
      ensure_defaults p now (record {
        id = "";
        timestamp = if stated == "" then now else stated;
        received_at = now;
        zone = "DMZ";
        source = "gds_opcua_facade";
        source_type = "gds";
        asset_name = asset_name;
        asset_ip = asset_ip;
        severity = class.severity;
        protocol = "opcua";
        event_category = class.category;
        message = facade_message rec;
        raw = c.object_text (compact_map (raw_of rec));
        tags = compact_map (tags_of class rec);
        extra_fields =
            picked metadata_keys (raw_of rec) (("risk_level", str class.risk_level) ∷ []);
        original_raw = "";
      })
