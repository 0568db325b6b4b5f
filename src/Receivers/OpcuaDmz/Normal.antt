-- ===== src/Receivers/OpcuaDmz/Normal.antt =====
-- The events of internal/ingest/opcua_dmz_events.go are in the form that
-- internal/normalizer/validator.go gives.
use dmz_collector.Base.{
  String, Bool, true, false, ◌&&◌, [], ◌∷◌, some, Map, lookup, insert, ◌≡◌, ◌≢◌, refl, arith,
  if◌then◌else◌, ◌∙◌, subst, member, all, lookup-insert, and-left, and-right,
}
use dmz_collector.Text.{to_lower, trim_space, equal_fold, switch}
use dmz_collector.Text.Laws.{switch-all}
use dmz_collector.Value.{Value, bool, str}
use dmz_collector.SourceUtil.{normalize_source_type}
use dmz_collector.Event.{Platform, Event, ensure_defaults}
use dmz_collector.Event.Defaults.{IsComplete, ensure_defaults-IsComplete}
use dmz_collector.Normalizer.{apply_source_specific, needs_sourcetype}
use dmz_collector.Disk.{Codec}
use dmz_collector.Receivers.Json.{map_any, first_string}
use dmz_collector.Receivers.Settled.{
  JudgedByTime, listed-settled, listed_or_warn-settled, settled, lookup-picked, validated_as_is,
  fill_sourcetype-kept, or_default-settled,
}
use dmz_collector.Receivers.OpcuaDmz.Words.{
  Class, classes, classify, normalize_message, categories, severities, valid_category,
  valid_severity, tag_keys, sourcetype,
}
use dmz_collector.Receivers.OpcuaDmz.{
  marked_tags, tags_for, redacted, class_of, message_of, raw_fields, build_event, event_of,
  normalize_event,
}
use dmz_collector.Receivers.OpcuaDmz.Clean.{normalize_event-event_of}

categories_settled : all settled categories ≡ true
unfolding settled to_lower trim_space
categories_settled = refl

severities_settled : all settled severities ≡ true
unfolding settled to_lower trim_space
severities_settled = refl

classify-settled :
    (message : String)
    → (settled (classify message).0 ≡ true) × (settled (classify message).1 ≡ true)
unfolding classify settled to_lower trim_space
classify-settled message =
    let both =
      switch-all (λ c. settled c.0 && settled c.1) (normalize_message message) classes
        ("system_health", "info") refl refl in
    (and-left _ _ both, and-right (settled (classify message).0) _ both)

class_of-settled :
    (p : Platform) (c : Codec) (rec raw : Map Value)
    → (settled (class_of p c rec raw).category ≡ true)
      × (settled (class_of p c rec raw).severity ≡ true)
unfolding class_of valid_category valid_severity
class_of-settled p c rec raw =
    let (category, severity) = classify-settled (message_of p c rec raw) in
    let stated = to_lower (trim_space (first_string p rec ("event_category" ∷ []))) in
    let level = to_lower (trim_space (first_string p rec ("severity" ∷ []))) in
    (
      ground (arith, listed-settled stated categories categories_settled),
      ground (arith, listed_or_warn-settled level severities severities_settled),
    )

no_such_key : member "splunk_sourcetype" tag_keys ≡ false
unfolding member
no_such_key = refl

marked_tags-sourcetype :
    (class : Class) (tags : Map Value)
    → lookup "splunk_sourcetype" (marked_tags class tags) ≡ some (str sourcetype)
unfolding marked_tags
marked_tags-sourcetype class tags = simp lookup-insert refl

lookup-flagged :
    (b : Bool) (tags : Map Value)
    → lookup "splunk_sourcetype" (if b then insert "alert_candidate" (bool true) tags else tags)
      ≡ lookup "splunk_sourcetype" tags
lookup-flagged true tags = simp lookup-insert refl
lookup-flagged false tags = refl

tags_for-sourcetype :
    (class : Class) (incoming safe : Map Value)
    → lookup "splunk_sourcetype" (tags_for class incoming safe) ≡ some (str sourcetype)
unfolding tags_for
tags_for-sourcetype class incoming safe =
    let tags = marked_tags class (redacted incoming) in
    lookup-picked "splunk_sourcetype" tag_keys safe
      (if class.alert_candidate then insert "alert_candidate" (bool true) tags else tags)
      no_such_key
    ∙ lookup-flagged class.alert_candidate tags
    ∙ marked_tags-sourcetype class (redacted incoming)

gateway_sourcetype : needs_sourcetype (some (str sourcetype)) ≡ false
unfolding needs_sourcetype trim_space equal_fold
gateway_sourcetype = refl

gateway_type : normalize_source_type "opcua_dmz_gateway" ≡ "opcua_dmz_gateway"
unfolding normalize_source_type to_lower trim_space switch
gateway_type = refl

module _ (p : Platform) (c : Codec) (now : String) (rec raw : Map Value) (class : Class) where
  abbrev built : Event
  built = build_event p c now rec raw class

  built-tags : built.tags ≡ tags_for class (map_any (lookup "tags" rec)) built.extra_fields
  unfolding build_event ensure_defaults
  built-tags = refl

  built-IsComplete : now ≢ "" → IsComplete built
  unfolding build_event
  built-IsComplete set = ensure_defaults-IsComplete p now _ set

  built-own : (original : String) → apply_source_specific p original built ≡ built
  unfolding apply_source_specific switch build_event ensure_defaults
  built-own original =
      let kept : lookup "splunk_sourcetype" built.tags ≡ some (str sourcetype) =
        rw built-tags
          (tags_for-sourcetype class (map_any (lookup "tags" rec)) built.extra_fields) in
      λ i. record built {
        tags =
            fill_sourcetype-kept "opcua_dmz_gateway" sourcetype built.tags gateway_sourcetype kept
              i;
      }

  built-validated :
      (later : String)
      → now ≢ ""
      → p.is_time now ≡ true
      → settled class.category ≡ true
      → settled class.severity ≡ true
      → JudgedByTime p later built
  unfolding build_event ensure_defaults
  built-validated later set clock category severity =
      validated_as_is p later built (built-IsComplete set) gateway_type
        (or_default-settled class.severity "info" severity)
        (or_default-settled class.category "unknown" category) (ground arith) (built-own _)

-- At a clock reading that is a time, the event that a record of the gateway becomes is accepted as
-- it is by validation at any later reading if the timestamp it took is a time, and else refused for
-- that: every default is set, the category and the severity are of the collector's own words, and its source type and its
-- source's tag are left alone.
pub normalize_event-validated :
    (p : Platform) (c : Codec) (now later raw : String) (e : Event)
    → now ≢ ""
    → p.is_time now ≡ true
    → normalize_event p c now raw ≡ some e
    → JudgedByTime p later e
unfolding event_of
normalize_event-validated p c now later raw e set clock made =
    let (fields, same) = normalize_event-event_of p c now raw e made in
    let rec = redacted fields in
    let inner = raw_fields p c rec in
    let (category, severity) = class_of-settled p c rec inner in
    subst (JudgedByTime p later) same
      (built-validated p c now rec inner (class_of p c rec inner) later set clock category severity)
