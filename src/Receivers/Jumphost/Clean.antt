-- ===== src/Receivers/Jumphost/Clean.antt =====
-- What the receiver of the jump host (internal/ingest/jumphost_events.go) lets through of secrets.
use mathlib.Core.Option
use dmz_collector.Base.{
  String, Bool, true, false, List, [], ◌∷◌, some, Map, lookup, insert, ◌≡◌, refl, arith,
  if◌then◌else◌, if_both, ap, ◌⊎◌, inl, inr, Bool-cases,
}
use dmz_collector.Text.{to_lower, trim_space, contains}
use dmz_collector.Text.Parts.{collapsed}
use dmz_collector.Value.{Value, bool, str}
use dmz_collector.Event.{Platform, Event, ensure_defaults}
use dmz_collector.Disk.{Codec}
use dmz_collector.Receivers.Json.{map_any}
use dmz_collector.Receivers.Mask.{clean, clean_map}
use dmz_collector.Receivers.Mask.Laws.{compact_map-clean}
use dmz_collector.Receivers.Jumphost.Words.{
  metadata_keys, Class, risk_for, is_high_value, is_sensitive_key, looks_like_secret, sourcetype,
  parser_version,
}
use dmz_collector.Receivers.Jumphost.Ssh.{Pattern}
use dmz_collector.Receivers.Jumphost.Build.{
  fixed_tags, when, sampled, tags_for, safe_payload, is_syslog, is_low_value, build_event,
}
use dmz_collector.Receivers.Jumphost.{redacted, class_of, parsed_of, event_of, normalize_event}
use dmz_collector.Receivers.Jumphost.Kept.{
  IsClean, redacted-IsClean, insert-IsClean, put_metadata-IsClean, extra_fields-IsClean,
  parsed_of-Kept, picked,
}

abbrev Plain : String → Type 0
Plain s = looks_like_secret s ≡ false

risks-Plain : Plain "CRITICAL" × Plain "MEDIUM" × Plain "HIGH" × Plain "LOW"
unfolding looks_like_secret contains to_lower trim_space
risks-Plain = (refl, refl, refl, refl)

risk_for-Plain : (message category severity : String) → Plain (risk_for message category severity)
unfolding risk_for
risk_for-Plain message category severity = ground (arith, risks-Plain)

fixed_tags-IsClean :
    (risk : String) (tags : Map Value)
    → looks_like_secret risk ≡ false
    → IsClean tags
    → IsClean (fixed_tags risk tags)
unfolding fixed_tags is_sensitive_key looks_like_secret clean contains collapsed to_lower trim_space
fixed_tags-IsClean risk tags plain t = insert-IsClean "risk_level" (str risk) _ (rw plain refl) (
    insert-IsClean "siem_index_hint" (str "ot_security") _ refl (
      insert-IsClean "splunk_sourcetype" (str sourcetype) _ refl (
        insert-IsClean "parser_version" (str parser_version) _ refl (
          insert-IsClean "normalization_source" (str "jumphost_dmz_collector") _ refl (
            insert-IsClean "normalized" (bool true) _ refl (
              insert-IsClean "collector_decision_hint" (str "store_forward") _ refl (
                insert-IsClean "dmz_collector" (str "dmz_collector") _ refl (
                  insert-IsClean "purdue_zone" (str "dmz") _ refl (
                    insert-IsClean "zone" (str "DMZ") _ refl
                      (insert-IsClean "component" (str "jumphost") tags refl t))))))))))

when-IsClean :
    (b : Bool) (f : Map Value → Map Value) (tags : Map Value)
    → (IsClean tags → IsClean (f tags))
    → IsClean tags
    → IsClean (when b f tags)
unfolding when
when-IsClean b f tags keeps c = if_both IsClean b (f tags) tags (keeps c) c

tags_for-IsClean :
    (class : Class) (low_value : Bool) (incoming rec raw : Map Value)
    → looks_like_secret class.risk_level ≡ false
    → IsClean rec
    → IsClean raw
    → IsClean (tags_for class low_value incoming rec raw)
unfolding tags_for redacted is_sensitive_key looks_like_secret clean contains collapsed to_lower
    trim_space
tags_for-IsClean class low_value incoming rec raw plain c r =
    put_metadata-IsClean metadata_keys raw rec _ r c (
      when-IsClean (is_high_value class.message) (insert "high_value" (bool true)) _
        (insert-IsClean "high_value" (bool true) _ refl)
        (when-IsClean low_value sampled _
          (λ t.
            insert-IsClean "collector_decision_hint" (str "sample") _ refl
              (insert-IsClean "low_value" (bool true) _ refl t))
          (when-IsClean class.alert_candidate (insert "alert_candidate" (bool true)) _
            (insert-IsClean "alert_candidate" (bool true) _ refl)
            (fixed_tags-IsClean class.risk_level _ plain (redacted-IsClean incoming)))))

class_of-Plain :
    (p : Platform) (rec : Map Value) (message : String) → Plain (class_of p rec message).risk_level
unfolding class_of
class_of-Plain p rec message = risk_for-Plain _ _ _

sourcetype-IsClean : IsClean (("sourcetype", str sourcetype) ∷ [])
unfolding clean_map is_sensitive_key looks_like_secret clean contains collapsed to_lower trim_space
sourcetype-IsClean = refl

safe_payload-IsClean : (p : Platform) (rec raw : Map Value) → IsClean (safe_payload p rec raw)
unfolding safe_payload redacted
safe_payload-IsClean p rec raw =
    compact_map-clean is_sensitive_key looks_like_secret _
      (redacted-IsClean (if is_syslog p rec then raw else rec))

module _ (p : Platform) (c : Codec) (now : String) (rec raw : Map Value) (class : Class) where
  abbrev built : Event
  built = build_event p c now rec raw class

  built-IsClean :
      looks_like_secret class.risk_level ≡ false
      → IsClean rec
      → IsClean raw
      → IsClean built.tags × IsClean built.extra_fields
  unfolding build_event ensure_defaults
  built-IsClean plain kept_rec kept_raw =
      let tags = tags_for class (is_low_value p rec raw) (map_any (lookup "tags" rec)) rec raw in
      let clean_tags =
        tags_for-IsClean class (is_low_value p rec raw) (map_any (lookup "tags" rec)) rec raw plain
          kept_rec kept_raw in
      (
        clean_tags,
        extra_fields-IsClean metadata_keys tags (("sourcetype", str sourcetype) ∷ []) clean_tags
            sourcetype-IsClean,
      )

  built-raw : (safe : Map Value) × (built.raw ≡ c.object_text safe) × IsClean safe
  unfolding build_event ensure_defaults
  built-raw = (safe_payload p rec raw, refl, safe_payload-IsClean p rec raw)

module _ (submatch : Pattern → String → List String) (p : Platform) (c : Codec) (now : String) where
  -- Every record of the jump host that decodes becomes an event. The object that the raw text of the
  -- event is made from is clean: it holds no sensitive text at any depth, and nothing but the mark
  -- under a sensitive key. The tags and the extra fields are clean in the same way, unless what the
  -- patterns pick out of the line of sshd in that very record is not.
  pub normalize_event_clean :
      (raw : String) (fields : Map Value)
      → p.unmarshal_object raw ≡ some fields
      → (e : Event) × (normalize_event submatch p c now raw ≡ some e)
        × ((safe : Map Value) × (e.raw ≡ c.object_text safe) × IsClean safe)
        × ((clean_map is_sensitive_key looks_like_secret (picked submatch p fields) ≡ false)
            ⊎ (IsClean e.tags × IsClean e.extra_fields))
  unfolding normalize_event event_of
  normalize_event_clean raw fields decoded =
      let s = parsed_of submatch p fields in
      let class = class_of p s.rec s.message in
      (
        event_of submatch p c now fields,
        ap (Option.map (event_of submatch p c now)) decoded,
        built-raw p c now s.rec s.raw class,
        elim (Bool-cases
            (clean_map is_sensitive_key looks_like_secret (picked submatch p fields))) [
              | inr leaks ↦ inl leaks
              | inl plain ↦
                  (let k = parsed_of-Kept submatch p fields plain in
                    inr (
                      built-IsClean p c now s.rec s.raw class (class_of-Plain p s.rec s.message)
                        k.rec k.raw))
            ],
      )
