-- ===== src/Receivers/OpcuaDmz.antt =====
-- internal/ingest/opcua_dmz_events.go: the receiver of the OPC UA gateway in the DMZ.
pub mod Words
pub mod Clean
pub mod Normal
pub mod Many
use Prim.Native.String.{◌++◌}
use text.Mathlib.Text.{starts_with}
use mathlib.Core.Option
use dmz_collector.Base.{
  String, Bool, true, false, ◌&&◌, ◌||◌, List, [], ◌∷◌, Option, none, some, Map, lookup, insert,
  if◌then◌else◌, ◌==◌, map,
}
use dmz_collector.Text.Parts.{trim_prefix}
use dmz_collector.Text.{to_lower, trim_space, contains}
use dmz_collector.Value.{Value, bool, str, obj, of_entries}
use dmz_collector.Event.{Platform, Event, ensure_defaults}
use dmz_collector.Disk.{Codec, zero_event}
use dmz_collector.Receivers.Json.{map_any, string_any, first_string, compact_map, picked}
use dmz_collector.Receivers.Mask.{mask_map}
use Words.{
  asset_name, asset_ip, sourcetype, parser_version, safe_raw_keys, tag_keys, Class, classify,
  message_for_event_type, normalize_message, normalize_event_type, valid_category, valid_severity,
  risk_for, alert_candidate, is_sensitive_key, looks_like_secret,
}

unfoldable pub redacted : Map Value → Map Value
redacted = mask_map is_sensitive_key looks_like_secret

-- safeOPCUADMZRawFields: nulls go with the blanks when the result is compacted.
unfoldable pub safe_raw_fields : Map Value → Map Value
unfolding redacted picked
safe_raw_fields raw = compact_map (picked safe_raw_keys (redacted raw) [])

-- The fixed tags, over those that came in.
unfoldable pub marked_tags : Class → Map Value → Map Value
marked_tags class tags = insert "risk_level" (str class.risk_level) (
    insert "siem_index_hint" (str "ot_security") (
      insert "splunk_sourcetype" (str sourcetype) (
        insert "parser_version" (str parser_version) (
          insert "normalization_source" (str "opcua_dmz_gateway_sender") (
            insert "normalized" (bool true) (
              insert "collector_decision_hint" (str "store_forward") (
                insert "dmz_collector" (str "dmz_collector") (
                  insert "purdue_zone" (str "dmz")
                    (insert "zone" (str "DMZ") (insert "component" (str asset_name) tags))))))))))

unfoldable pub tags_for : Class → Map Value → Map Value → Map Value
unfolding marked_tags redacted picked
tags_for class incoming safe =
    let tags = marked_tags class (redacted incoming) in
    picked tag_keys safe
      (if class.alert_candidate then insert "alert_candidate" (bool true) tags else tags)

-- What is left of a message without its prefix.
unfoldable pub event_type_of : String → String
event_type_of message = trim_prefix message "opcua_dmz_"

unfoldable pub safe_or_type : Class → Map Value → Map Value
safe_or_type class safe = elim safe [
  | [] ↦ ("event_type", str (event_type_of class.message)) ∷ []
  | kv ∷ rest ↦ kv ∷ rest
]

unfoldable pub text_message : String → String
text_message line =
    let lower = to_lower line in
    if contains lower "heartbeat"
    then "opcua_dmz_heartbeat"
    else if contains lower "started"
    then "opcua_dmz_started"
    else if contains lower "southbound" && contains lower "connect" && contains lower "fail"
    then "opcua_dmz_southbound_connect_failed"
    else if contains lower "pki" && contains lower "fail"
    then "opcua_dmz_pki_load_failed"
    else "opcua_dmz_event_unknown"

module _ (p : Platform) (c : Codec) where
  -- opcuaDMZRawFields
  unfoldable pub raw_fields : Map Value → Map Value
  unfolding picked
  raw_fields rec =
      let text = trim_space (string_any p (lookup "raw" rec)) in
      elim (map_any (lookup "raw" rec)) [
        | kv ∷ raw ↦ kv ∷ raw
        | [] ↦ if text == "" then picked safe_raw_keys rec [] else (elim (p.unmarshal_object text) [
          | some fields ↦ fields
          | none ↦ ("detail", str text) ∷ []
        ])
      ]

  -- buildOPCUADMZEvent
  unfoldable pub build_event : String → Map Value → Map Value → Class → Event
  unfolding safe_raw_fields tags_for safe_or_type
  build_event now rec raw class =
      let ts = first_string p rec ("timestamp" ∷ []) in
      let generated = first_string p raw ("generated_at" ∷ "ts" ∷ "created_at" ∷ []) in
      let safe = safe_or_type class (safe_raw_fields raw) in
      ensure_defaults p now (record {
        id = "";
        timestamp = if ts == "" then (if generated == "" then now else generated) else ts;
        received_at = now;
        zone = "DMZ";
        source = "opcua_dmz_gateway";
        source_type = "opcua_dmz_gateway";
        asset_name = asset_name;
        asset_ip = asset_ip;
        severity = class.severity;
        protocol = "opcua";
        event_category = class.category;
        message = class.message;
        raw = c.object_text safe;
        tags = tags_for class (map_any (lookup "tags" rec)) safe;
        extra_fields = safe;
        original_raw = "";
      })

  unfoldable pub message_of : Map Value → Map Value → String
  message_of rec raw =
      let given = normalize_message (first_string p rec ("message" ∷ [])) in
      let event_type =
        normalize_event_type
          (first_string p raw ("event_type" ∷ "type" ∷ "event" ∷ "action" ∷ [])) in
      let typed = message_for_event_type event_type in
      if given == "" then (if typed == "" then "opcua_dmz_event_unknown" else typed) else given

  unfoldable pub class_of : Map Value → Map Value → Class
  unfolding message_of
  class_of rec raw =
      let message = message_of rec raw in
      let class = classify message in
      let stated_category = valid_category (first_string p rec ("event_category" ∷ [])) in
      let stated_severity = valid_severity (first_string p rec ("severity" ∷ [])) in
      let category = if stated_category == "" then class.0 else stated_category in
      let severity = if stated_severity == "" then class.1 else stated_severity in
      record {
        message = message;
        category = category;
        severity = severity;
        risk_level = risk_for severity category;
        alert_candidate = alert_candidate message category severity;
      }

  -- NormalizeOPCUADMZEvent past json.Unmarshal.
  unfoldable pub event_of : String → Map Value → Event
  unfolding raw_fields class_of build_event redacted
  event_of now fields =
      let rec = redacted fields in
      let inner = raw_fields rec in build_event now rec inner (class_of rec inner)

  -- NormalizeOPCUADMZEvent: `none` is an error of encoding/json.
  unfoldable pub normalize_event : String → String → Option Event
  normalize_event now raw = Option.map (event_of now) (p.unmarshal_object raw)

  -- normalizeOPCUADMZTextLine
  unfoldable pub normalize_text_line : String → String → Event
  unfolding text_message
  normalize_text_line now line =
      let rec =
        ("message", str (text_message line))
        ∷ ("raw", obj (of_entries (("detail", str line) ∷ [])))
        ∷ [] in
      elim (normalize_event now (c.object_text rec)) [ none ↦ zero_event | some e ↦ e ]
