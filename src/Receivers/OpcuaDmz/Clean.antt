-- ===== src/Receivers/OpcuaDmz/Clean.antt =====
-- What NormalizeOPCUADMZEvent of internal/ingest/opcua_dmz_events.go lets through of secrets.
use dmz_collector.Base.{
  String, Bool, true, false, not, List, [], ◌∷◌, some, Map, member, lookup, insert, ◌≡◌, refl,
  arith, if◌then◌else◌, Bool-cases, Option-cases, inl, inr, subst, sym,
}
use dmz_collector.Text.{to_lower, trim_space, switch, contains}
use dmz_collector.Text.Parts.{collapsed}
use dmz_collector.Text.Laws.{switch-all}
use dmz_collector.Value.{Value, bool, str}
use dmz_collector.Event.{Platform, Event, ensure_defaults}
use dmz_collector.Disk.{Codec}
use dmz_collector.Receivers.Json.{map_any, picked}
use dmz_collector.Receivers.Mask.{clean, clean_entry, clean_map}
use dmz_collector.Receivers.Mask.Laws.{
  insert-clean, compact_map-clean, mask_map-clean, picked-clean,
}
use dmz_collector.Receivers.OpcuaDmz.Words.{
  asset_name, sourcetype, parser_version, safe_raw_keys, tag_keys, Class, risk_for, severity_risks,
  category_risks, is_sensitive_key, looks_like_secret,
}
use dmz_collector.Receivers.OpcuaDmz.{
  redacted, safe_raw_fields, raw_fields, marked_tags, tags_for, event_type_of, safe_or_type,
  build_event, class_of, event_of, normalize_event,
}

-- No sensitive text at any depth, and nothing but the mark under a sensitive key.
abbrev pub IsClean : Map Value → Type 0
IsClean m = clean_map is_sensitive_key looks_like_secret m ≡ true

abbrev entry : String → Value → Bool
entry = clean_entry is_sensitive_key looks_like_secret

redacted-IsClean : (m : Map Value) → IsClean (redacted m)
unfolding redacted looks_like_secret contains to_lower
redacted-IsClean m = mask_map-clean is_sensitive_key looks_like_secret refl m

put-IsClean :
    (k : String) (v : Value) (m : Map Value) → entry k v ≡ true → IsClean m → IsClean (insert k v m)
put-IsClean k v m = insert-clean is_sensitive_key looks_like_secret k v m

picked-IsClean :
    (keys : List String) (rec out : Map Value)
    → IsClean rec
    → IsClean out
    → IsClean (picked keys rec out)
picked-IsClean = picked-clean is_sensitive_key looks_like_secret

safe_raw_fields-IsClean : (raw : Map Value) → IsClean (safe_raw_fields raw)
unfolding safe_raw_fields clean_map
safe_raw_fields-IsClean raw =
    compact_map-clean is_sensitive_key looks_like_secret (picked safe_raw_keys (redacted raw) [])
      (picked-IsClean safe_raw_keys (redacted raw) [] (redacted-IsClean raw) refl)

risk_for-plain :
    (severity category : String) → not (looks_like_secret (risk_for severity category)) ≡ true
unfolding risk_for looks_like_secret contains to_lower
risk_for-plain severity category =
    let plain = λ (s : String). not (looks_like_secret s) in
    switch-all plain (to_lower (trim_space severity)) severity_risks
      (switch (to_lower (trim_space category)) category_risks "LOW") refl
      (switch-all plain (to_lower (trim_space category)) category_risks "LOW" refl refl)

marked_tags-IsClean :
    (class : Class) (tags : Map Value)
    → not (looks_like_secret class.risk_level) ≡ true
    → IsClean tags
    → IsClean (marked_tags class tags)
unfolding marked_tags is_sensitive_key looks_like_secret clean member contains collapsed to_lower
    trim_space
marked_tags-IsClean class tags risk t = put-IsClean "risk_level" (str class.risk_level) _ risk (
    put-IsClean "siem_index_hint" (str "ot_security") _ refl (
      put-IsClean "splunk_sourcetype" (str sourcetype) _ refl (
        put-IsClean "parser_version" (str parser_version) _ refl (
          put-IsClean "normalization_source" (str "opcua_dmz_gateway_sender") _ refl (
            put-IsClean "normalized" (bool true) _ refl (
              put-IsClean "collector_decision_hint" (str "store_forward") _ refl (
                put-IsClean "dmz_collector" (str "dmz_collector") _ refl (
                  put-IsClean "purdue_zone" (str "dmz") _ refl (
                    put-IsClean "zone" (str "DMZ") _ refl
                      (put-IsClean "component" (str asset_name) tags refl t))))))))))

tags_for-IsClean :
    (class : Class) (incoming safe : Map Value)
    → not (looks_like_secret class.risk_level) ≡ true
    → IsClean safe
    → IsClean (tags_for class incoming safe)
unfolding tags_for is_sensitive_key member contains collapsed to_lower trim_space clean
tags_for-IsClean class incoming safe risk s =
    let tags = marked_tags class (redacted incoming) in
    let marked = marked_tags-IsClean class (redacted incoming) risk (redacted-IsClean incoming) in
    picked-IsClean tag_keys safe
      (if class.alert_candidate then insert "alert_candidate" (bool true) tags else tags) s
      (elim (Bool-cases class.alert_candidate) [
        | inl on ↦ rw on (put-IsClean "alert_candidate" (bool true) tags refl marked)
        | inr off ↦ rw off marked
      ])

safe_or_type-IsClean :
    (class : Class) (safe : Map Value)
    → looks_like_secret (event_type_of class.message) ≡ false
    → IsClean safe
    → IsClean (safe_or_type class safe)
unfolding safe_or_type clean_map clean is_sensitive_key member contains collapsed to_lower
    trim_space
safe_or_type-IsClean class [] plain s = rw plain refl
safe_or_type-IsClean class (kv ∷ rest) plain s = s

class_of-plain :
    (p : Platform) (c : Codec) (rec raw : Map Value)
    → not (looks_like_secret (class_of p c rec raw).risk_level) ≡ true
unfolding class_of
class_of-plain p c rec raw = risk_for-plain _ _

abbrev Keeps : Codec → Event → Type 0
Keeps c e =
    IsClean e.tags
    × IsClean e.extra_fields
    × ((safe : Map Value) × (e.raw ≡ c.object_text safe) × IsClean safe)

build_event-Keeps :
    (p : Platform) (c : Codec) (now : String) (rec raw : Map Value) (class : Class)
    → not (looks_like_secret class.risk_level) ≡ true
    → looks_like_secret (event_type_of class.message) ≡ false
    → Keeps c (build_event p c now rec raw class)
unfolding build_event ensure_defaults
build_event-Keeps p c now rec raw class risk plain =
    let safe = safe_or_type class (safe_raw_fields raw) in
    let kept =
      safe_or_type-IsClean class (safe_raw_fields raw) plain (safe_raw_fields-IsClean raw) in
    (tags_for-IsClean class (map_any (lookup "tags" rec)) safe risk kept, kept, (safe, refl, kept))

event_of-Keeps :
    (p : Platform) (c : Codec) (now : String) (fields : Map Value)
    → looks_like_secret (event_type_of (event_of p c now fields).message) ≡ false
    → Keeps c (event_of p c now fields)
unfolding event_of build_event ensure_defaults
event_of-Keeps p c now fields plain =
    let rec = redacted fields in
    let inner = raw_fields p c rec in
    build_event-Keeps p c now rec inner (class_of p c rec inner) (class_of-plain p c rec inner)
      plain

-- An event comes from the fields that the text decodes to.
pub normalize_event-event_of :
    (p : Platform) (c : Codec) (now raw : String) (e : Event)
    → normalize_event p c now raw ≡ some e
    → (fields : Map Value) × (event_of p c now fields ≡ e)
unfolding normalize_event
normalize_event-event_of p c now raw e made = elim (Option-cases (p.unmarshal_object raw)) [
  | inl none_read ↦ ground arith
  | inr (fields, decoded) ↦ (fields, ground arith)
]

-- Whatever record the gateway sends, the tags and the extra fields of its event and the object that
-- its raw text is made from hold no sensitive text at any depth, and nothing but the mark under a
-- sensitive key, provided that the message without its prefix is no sensitive text itself.
pub normalize_event-IsClean :
    (p : Platform) (c : Codec) (now raw : String) (e : Event)
    → normalize_event p c now raw ≡ some e
    → looks_like_secret (event_type_of e.message) ≡ false
    → IsClean e.tags
      × IsClean e.extra_fields
      × ((safe : Map Value) × (e.raw ≡ c.object_text safe) × IsClean safe)
normalize_event-IsClean p c now raw e made plain =
    let (fields, same) = normalize_event-event_of p c now raw e made in
    subst (Keeps c) same (
      event_of-Keeps p c now fields (
        subst (λ (f : Event). looks_like_secret (event_type_of f.message) ≡ false) (sym same)
          plain))
