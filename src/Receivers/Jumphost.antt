-- ===== src/Receivers/Jumphost.antt =====
-- internal/ingest/jumphost_events.go: the receiver of the jump host. The regular expressions are the
-- parameter of Ssh.
pub mod Words
pub mod Ssh
pub mod Build
pub mod Kept
pub mod Clean
pub mod Normal
pub mod Many
use mathlib.Core.Option
use dmz_collector.Base.{
  String, Bool, true, ◌&&◌, ◌||◌, not, List, [], ◌∷◌, Option, none, some, Map, lookup, insert,
  if◌then◌else◌, ◌==◌,
}
use dmz_collector.Text.{trim_space}
use dmz_collector.Value.{Value, bool, str, obj, entries, of_entries}
use dmz_collector.Event.{Platform, Event}
use dmz_collector.Disk.{Codec, zero_event}
use dmz_collector.Receivers.Json.{map_any, string_any, first_string, picked}
use dmz_collector.Receivers.Mask.{mask, mask_map}
use Words.{
  metadata_keys, Class, unknown, normalize_message, classify, valid_category, valid_severity,
  risk_for, alert_candidate, is_sensitive_key, looks_like_secret, is_noise, looks_like_ssh_line,
}
use Ssh.{Pattern, fields_from_syslog_message, message_from_text}
use Build.{build_event}

unfoldable pub redacted : Map Value → Map Value
redacted = mask_map is_sensitive_key looks_like_secret

-- `m[k] = v` for the entries of a map, in order
unfoldable pub put_all : Map Value → Map Value → Map Value
put_all [] out = out
put_all ((k, v) ∷ fields) out = put_all fields (insert k v out)

-- A key that is not there is set.
unfoldable pub put_new : String → Value → Map Value → Map Value
put_new key v m = elim (lookup key m) [ none ↦ insert key v m | some old ↦ m ]

-- A record in the course of its normalization.
pub record Parsed : Type 0 where
  pub rec : Map Value
  pub raw : Map Value
  pub message : String

-- ensureJumphostRawField
unfoldable pub ensure_raw_field : String → Value → Parsed → Parsed
unfolding put_new
ensure_raw_field key v s = record s {
  raw = put_new key v s.raw;
  rec = elim (map_any (lookup "raw" s.rec)) [
    | [] ↦ s.rec
    | kv ∷ inner ↦ insert "raw" (obj (of_entries (put_new key v (kv ∷ inner)))) s.rec
  ];
}

module _ (p : Platform) where
  -- jumphostRawFields
  unfoldable pub raw_fields : Map Value → Map Value
  unfolding picked redacted
  raw_fields rec =
      let text = trim_space (string_any p (lookup "raw" rec)) in
      elim (map_any (lookup "raw" rec)) [
        | kv ∷ raw ↦ redacted (kv ∷ raw)
        | [] ↦
            if text == ""
            then redacted (
                picked ("message" ∷ "msg" ∷ "log_message" ∷ "detail" ∷ []) rec
                  (picked metadata_keys rec []))
            else (elim (p.unmarshal_object text) [
              | some fields ↦ redacted fields
              | none ↦ ("detail", mask is_sensitive_key looks_like_secret (str text)) ∷ []
            ])
      ]

  -- firstNestedString
  unfoldable pub first_nested_string : List String → Option Value → String
  first_nested_string [] v = string_any p v
  first_nested_string (key ∷ path) v = elim (map_any v) [
    | [] ↦ ""
    | kv ∷ m ↦ first_nested_string path (lookup key (kv ∷ m))
  ]

  -- The first text that is a line of sshd; the line's end goes with the blanks.
  unfoldable pub first_ssh_line : List String → String
  first_ssh_line [] = ""
  first_ssh_line (candidate ∷ candidates) =
      let rest = first_ssh_line candidates in
      let line = trim_space candidate in
      if not (line == "") && looks_like_ssh_line line then line else rest

  -- sshLineFromJumphostPayload
  unfoldable pub ssh_line_from_payload : Map Value → Map Value → String
  unfolding first_ssh_line first_nested_string
  ssh_line_from_payload rec raw = first_ssh_line (
      first_string p raw ("line" ∷ [])
      ∷ first_nested_string ("raw" ∷ "line" ∷ []) (some (obj (of_entries raw)))
      ∷ first_nested_string ("payload" ∷ "raw" ∷ "line" ∷ []) (some (obj (of_entries rec)))
      ∷ first_nested_string ("raw" ∷ "raw" ∷ "line" ∷ []) (some (obj (of_entries rec)))
      ∷ string_any p (lookup "raw" rec)
      ∷ first_string p raw ("raw" ∷ "detail" ∷ "log_message" ∷ "message" ∷ [])
      ∷ [])

  -- The class of a message, with the category and the severity that the record of an unknown one states.
  unfoldable pub class_of : Map Value → String → Class
  class_of rec message =
      let class = classify message in
      let known = not (message == unknown) in
      let stated_category =
        valid_category (first_string p rec ("event_category" ∷ "category" ∷ [])) in
      let stated_severity = valid_severity (first_string p rec ("severity" ∷ "level" ∷ [])) in
      let category = if (stated_category == "") || known then class.0 else stated_category in
      let severity = if (stated_severity == "") || known then class.1 else stated_severity in
      record {
        message = message;
        category = category;
        severity = severity;
        risk_level = risk_for message category severity;
        alert_candidate = alert_candidate message category severity;
      }

module _ (submatch : Pattern → String → List String) (p : Platform) where
  -- What a line of sshd in the record adds to it.
  unfoldable pub with_ssh_line : String → Parsed → Parsed
  unfolding put_all ensure_raw_field
  with_ssh_line line s =
      let t =
        ensure_raw_field "parser_hint" (str "sshd_auth_log")
          (record s { raw = put_all (fields_from_syslog_message submatch line) s.raw }) in
      let parsed = message_from_text submatch line in
      record t {
        message =
            if ((t.message == "") || (t.message == unknown))
              && (not (parsed == "") && not (parsed == unknown))
            then parsed
            else t.message;
      }

  -- What NormalizeJumphostEvent reads of a record before it looks for a line of sshd.
  unfoldable pub opened : Map Value → Parsed
  unfolding raw_fields redacted
  opened fields =
      let rec = redacted fields in
      let raw = raw_fields p rec in
      let given =
        normalize_message
          (first_string p rec ("message" ∷ "event_type" ∷ "type" ∷ "action" ∷ [])) in
      let found =
        message_from_text submatch
          (first_string p raw ("message" ∷ "msg" ∷ "log_message" ∷ "detail" ∷ "raw" ∷ [])) in
      record { rec = rec; raw = raw; message = if given == "" then found else given }

  -- The first part of NormalizeJumphostEvent, past json.Unmarshal: all but the class.
  unfoldable pub parsed_of : Map Value → Parsed
  unfolding with_ssh_line opened
  parsed_of fields =
      let s = opened fields in
      let line = ssh_line_from_payload p s.rec s.raw in
      let t = if line == "" then s else with_ssh_line line s in
      record t { message = if t.message == "" then unknown else t.message }

  module _ (c : Codec) (now : String) where
    -- NormalizeJumphostEvent past json.Unmarshal.
    unfoldable pub event_of : Map Value → Event
    unfolding parsed_of class_of build_event
    event_of fields =
        let s = parsed_of fields in build_event p c now s.rec s.raw (class_of p s.rec s.message)

    -- NormalizeJumphostEvent: `none` is an error of encoding/json.
    unfoldable pub normalize_event : String → Option Event
    normalize_event raw = Option.map event_of (p.unmarshal_object raw)

    -- mustJSON, and the event that is read again from it.
    unfoldable pub event_of_payload : Map Value → Event
    event_of_payload m = elim (normalize_event (c.object_text m)) [ none ↦ zero_event | some e ↦ e ]

    abbrev message_or_unknown : String → String
    message_or_unknown text =
        let message = message_from_text submatch text in if message == "" then unknown else message

    abbrev pub line_payload : String → Map Value
    line_payload line =
        ("message", str (message_or_unknown line))
        ∷ ("raw", obj (of_entries (("detail", str line) ∷ [])))
        ∷ []

    -- normalizeJumphostTextLine
    unfoldable pub normalize_text_line : String → Event
    unfolding event_of_payload
    normalize_text_line line = event_of_payload (line_payload line)
