-- ===== src/Receivers/Jumphost/Build.antt =====
-- buildJumphostEvent of internal/ingest/jumphost_events.go: the event of a record, once its message
-- and its class are known.
use dmz_collector.Base.{
  String, Bool, true, ◌||◌, List, [], ◌∷◌, Option, none, some, Map, lookup, insert, if◌then◌else◌,
  ◌==◌, exists, ◌≡◌, refl,
}
use dmz_collector.Text.{to_lower, contains, equal_fold, join_blank}
use dmz_collector.Value.{Value, null, bool, num, str, arr, obj}
use dmz_collector.Event.{Platform, Event, ensure_defaults}
use dmz_collector.Disk.{Codec}
use dmz_collector.Receivers.Json.{map_any, first_string, bool_value, compact_map}
use dmz_collector.Receivers.Mask.{mask_map}
use dmz_collector.Receivers.Jumphost.Words.{
  asset_name, asset_ip, source, sourcetype, parser_version, metadata_keys, Class, is_sensitive_key,
  looks_like_secret, is_noise, is_high_value,
}

-- A value that is there and no null is copied.
unfoldable pub put_set : String → Option Value → Map Value → Map Value
put_set key none out = out
put_set key (some null) out = out
put_set key (some v) out = insert key v out

-- It is left alone or written.
pub put_set-either {ℓ} :
    (P : Map Value → Type ℓ) (key : String) (found : Option Value) (out : Map Value)
    → P out
    → ((v : Value) → found ≡ some v → P (insert key v out))
    → P (put_set key found out)
unfolding put_set
put_set-either P key none out same written = same
put_set-either P key (some null) out same written = same
put_set-either P key (some (bool b)) out same written = written (bool b) refl
put_set-either P key (some (num t)) out same written = written (num t) refl
put_set-either P key (some (str t)) out same written = written (str t) refl
put_set-either P key (some (arr vs)) out same written = written (arr vs) refl
put_set-either P key (some (obj fs)) out same written = written (obj fs) refl

-- The keys that the raw fields or the record have; those of the record count.
unfoldable pub put_metadata : List String → Map Value → Map Value → Map Value → Map Value
unfolding put_set
put_metadata [] raw rec tags = tags
put_metadata (key ∷ keys) raw rec tags =
    put_metadata keys raw rec (put_set key (lookup key rec) (put_set key (lookup key raw) tags))

-- The metadata among the tags.
unfoldable pub extra_fields : List String → Map Value → Map Value → Map Value
unfolding put_set
extra_fields [] tags out = out
extra_fields (key ∷ keys) tags out = extra_fields keys tags (put_set key (lookup key tags) out)

-- The fixed tags, over those that came in.
unfoldable pub fixed_tags : String → Map Value → Map Value
fixed_tags risk_level tags = insert "risk_level" (str risk_level) (
    insert "siem_index_hint" (str "ot_security") (
      insert "splunk_sourcetype" (str sourcetype) (
        insert "parser_version" (str parser_version) (
          insert "normalization_source" (str "jumphost_dmz_collector") (
            insert "normalized" (bool true) (
              insert "collector_decision_hint" (str "store_forward") (
                insert "dmz_collector" (str "dmz_collector") (
                  insert "purdue_zone" (str "dmz")
                    (insert "zone" (str "DMZ") (insert "component" (str "jumphost") tags))))))))))

unfoldable pub when {ℓ} : {A : Type ℓ} → Bool → (A → A) → A → A
when b f a = if b then f a else a

abbrev pub sampled : Map Value → Map Value
sampled tags = insert "collector_decision_hint" (str "sample") (insert "low_value" (bool true) tags)

-- The tags of a record, given whether it is of low value.
unfoldable pub tags_for : Class → Bool → Map Value → Map Value → Map Value → Map Value
unfolding fixed_tags when put_metadata
tags_for class low_value incoming rec raw = put_metadata metadata_keys raw rec (
    when (is_high_value class.message) (insert "high_value" (bool true)) (
      when low_value sampled (
        when class.alert_candidate (insert "alert_candidate" (bool true))
          (fixed_tags class.risk_level (mask_map is_sensitive_key looks_like_secret incoming)))))

module _ (p : Platform) where
  -- protocolForJumphost
  unfoldable pub protocol_for : String → Map Value → Map Value → String
  protocol_for message rec raw =
      let blob = to_lower (
        join_blank (
          message
          ∷ first_string p rec ("program" ∷ "process" ∷ "service" ∷ [])
          ∷ first_string p raw
              ("program" ∷ "process" ∷ "service" ∷ "detail" ∷ "log_message" ∷ "line" ∷ [])
          ∷ [])) in
      if exists (contains blob) ("ssh" ∷ "sshd" ∷ "pam" ∷ [])
        || exists (contains message)
            ("login" ∷ "session" ∷ "logout" ∷ "forward" ∷ "password_auth" ∷ "bastion_policy" ∷ [])
      then "ssh"
      else "syslog"

  abbrev time_keys : List String
  time_keys = "timestamp" ∷ "time" ∷ "ts" ∷ "created_at" ∷ "generated_at" ∷ []

  unfoldable pub is_syslog : Map Value → Bool
  is_syslog rec = equal_fold (first_string p rec ("source" ∷ [])) "jumphost_syslog"

  -- The object that the raw text of the event is made from.
  unfoldable pub safe_payload : Map Value → Map Value → Map Value
  unfolding is_syslog
  safe_payload rec raw =
      compact_map (mask_map is_sensitive_key looks_like_secret (if is_syslog rec then raw else rec))

  unfoldable pub is_low_value : Map Value → Map Value → Bool
  is_low_value rec raw =
      bool_value (lookup "low_value" rec)
      || is_noise (first_string p raw ("syslog_message" ∷ "detail" ∷ "log_message" ∷ "line" ∷ []))

  -- buildJumphostEvent
  unfoldable pub build_event : Codec → String → Map Value → Map Value → Class → Event
  unfolding tags_for protocol_for is_syslog safe_payload is_low_value extra_fields
  build_event c now rec raw class =
      let stated = first_string p rec time_keys in
      let inner = first_string p raw time_keys in
      let tags = tags_for class (is_low_value rec raw) (map_any (lookup "tags" rec)) rec raw in
      ensure_defaults p now (record {
        id = "";
        timestamp = if stated == "" then (if inner == "" then now else inner) else stated;
        received_at = now;
        zone = "DMZ";
        source = if is_syslog rec then "jumphost_syslog" else source;
        source_type = "jumphost";
        asset_name = asset_name;
        asset_ip = asset_ip;
        severity = class.severity;
        protocol = protocol_for class.message rec raw;
        event_category = class.category;
        message = class.message;
        raw = c.object_text (safe_payload rec raw);
        tags = tags;
        extra_fields = extra_fields metadata_keys tags (("sourcetype", str sourcetype) ∷ []);
        original_raw = "";
      })
