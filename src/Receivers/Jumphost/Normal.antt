-- ===== src/Receivers/Jumphost/Normal.antt =====
-- The events of internal/ingest/jumphost_events.go are in the form that
-- internal/normalizer/validator.go gives.
use dmz_collector.Base.{
  String, Bool, true, false, ◌&&◌, not, List, [], ◌∷◌, Option, some, Map, lookup, insert, ◌≡◌, ◌≢◌,
  refl, arith, ◌==◌, Option-cases, inl, inr, subst, member, all, lookup-insert, and-left, and-right,
}
use dmz_collector.Text.{to_lower, trim_space, equal_fold, switch}
use dmz_collector.Text.Laws.{switch-all}
use dmz_collector.Value.{Value, bool, str}
use dmz_collector.SourceUtil.{normalize_source_type}
use dmz_collector.Event.{Platform, Event, ensure_defaults}
use dmz_collector.Event.Defaults.{IsComplete, ensure_defaults-IsComplete}
use dmz_collector.Normalizer.{apply_source_specific, needs_sourcetype}
use dmz_collector.Disk.{Codec}
use dmz_collector.Receivers.Json.{map_any, first_string}
use dmz_collector.Receivers.Mask.{mask_map}
use dmz_collector.Receivers.Settled.{
  JudgedByTime, settled, listed-settled, listed_or_warn-settled, stated-settled, validated_as_is,
  fill_sourcetype-kept, or_default-settled,
}
use dmz_collector.Receivers.Jumphost.Words.{
  Class, classes, other_class, classify, unknown, categories, severities, valid_category,
  valid_severity, metadata_keys, sourcetype, is_high_value, is_sensitive_key, looks_like_secret,
}
use dmz_collector.Receivers.Jumphost.Ssh.{Pattern}
use dmz_collector.Receivers.Jumphost.Build.{
  put_set, put_set-either, put_metadata, fixed_tags, when, sampled, tags_for, is_low_value,
  build_event,
}
use dmz_collector.Receivers.Jumphost.{class_of, parsed_of, event_of, normalize_event}

categories_settled : all settled categories ≡ true
unfolding settled to_lower trim_space
categories_settled = refl

severities_settled : all settled severities ≡ true
unfolding settled to_lower trim_space
severities_settled = refl

classify-settled :
    (message : String)
    → (settled (classify message).0 ≡ true) × (settled (classify message).1 ≡ true)
unfolding classify settled to_lower trim_space
classify-settled message =
    let both = switch-all (λ c. settled c.0 && settled c.1) message classes other_class refl refl in
    (and-left _ _ both, and-right (settled (classify message).0) _ both)

class_of-settled :
    (p : Platform) (rec : Map Value) (message : String)
    → (settled (class_of p rec message).category ≡ true)
      × (settled (class_of p rec message).severity ≡ true)
unfolding class_of valid_category valid_severity
class_of-settled p rec message =
    let (category, severity) = classify-settled message in
    let c = first_string p rec ("event_category" ∷ "category" ∷ []) in
    let s = first_string p rec ("severity" ∷ "level" ∷ []) in
    (
      stated-settled (valid_category c) (classify message).0 (not (message == unknown))
          (listed-settled (to_lower (trim_space c)) categories categories_settled) category,
      stated-settled (valid_severity s) (classify message).1 (not (message == unknown))
          (listed_or_warn-settled (to_lower (trim_space s)) severities severities_settled) severity,
    )

abbrev Marked : Map Value → Type 0
Marked tags = lookup "splunk_sourcetype" tags ≡ some (str sourcetype)

Marked-insert :
    (key : String) (v : Value) (tags : Map Value)
    → (key == "splunk_sourcetype") ≡ false
    → Marked tags
    → Marked (insert key v tags)
Marked-insert key v tags other found = simp lookup-insert (ground arith)

Marked-put_set :
    (key : String) (o : Option Value) (tags : Map Value)
    → (key == "splunk_sourcetype") ≡ false
    → Marked tags
    → Marked (put_set key o tags)
Marked-put_set key found tags other marked =
    put_set-either Marked key found tags marked (λ v there. Marked-insert key v tags other marked)

Marked-put_metadata :
    (keys : List String) (raw rec tags : Map Value)
    → member "splunk_sourcetype" keys ≡ false
    → Marked tags
    → Marked (put_metadata keys raw rec tags)
unfolding put_metadata member
Marked-put_metadata [] raw rec tags other found = found
Marked-put_metadata (key ∷ keys) raw rec tags other found =
    let new : (key == "splunk_sourcetype") ≡ false = ground arith in
    Marked-put_metadata keys raw rec _ (ground arith) (
      Marked-put_set key (lookup key rec) _ new
        (Marked-put_set key (lookup key raw) tags new found))

Marked-when :
    (b : Bool) (f : Map Value → Map Value) (tags : Map Value)
    → (Marked tags → Marked (f tags))
    → Marked tags
    → Marked (when b f tags)
unfolding when
Marked-when true f tags keeps found = keeps found
Marked-when false f tags keeps found = found

fixed_tags-Marked : (risk_level : String) (tags : Map Value) → Marked (fixed_tags risk_level tags)
unfolding fixed_tags
fixed_tags-Marked risk_level tags = simp lookup-insert refl

tags_for-Marked :
    (class : Class) (low_value : Bool) (incoming rec raw : Map Value)
    → Marked (tags_for class low_value incoming rec raw)
unfolding tags_for member
tags_for-Marked class low_value incoming rec raw =
    Marked-put_metadata metadata_keys raw rec _ refl (
      Marked-when (is_high_value class.message) (insert "high_value" (bool true)) _
        (Marked-insert "high_value" (bool true) _ refl)
        (Marked-when low_value sampled _
          (λ found.
            Marked-insert "collector_decision_hint" (str "sample") _ refl
              (Marked-insert "low_value" (bool true) _ refl found))
          (Marked-when class.alert_candidate (insert "alert_candidate" (bool true)) _
            (Marked-insert "alert_candidate" (bool true) _ refl)
            (fixed_tags-Marked class.risk_level
              (mask_map is_sensitive_key looks_like_secret incoming)))))

own_sourcetype : needs_sourcetype (some (str sourcetype)) ≡ false
unfolding needs_sourcetype trim_space equal_fold
own_sourcetype = refl

own_type : normalize_source_type "jumphost" ≡ "jumphost"
unfolding normalize_source_type to_lower trim_space switch
own_type = refl

module _ (p : Platform) (c : Codec) (now : String) (rec raw : Map Value) (class : Class) where
  abbrev built : Event
  built = build_event p c now rec raw class

  built-Marked : Marked built.tags
  unfolding build_event ensure_defaults
  built-Marked =
      tags_for-Marked class (is_low_value p rec raw) (map_any (lookup "tags" rec)) rec raw

  built-IsComplete : now ≢ "" → IsComplete built
  unfolding build_event
  built-IsComplete set = ensure_defaults-IsComplete p now _ set

  built-own : (original : String) → apply_source_specific p original built ≡ built
  unfolding apply_source_specific switch build_event ensure_defaults
  built-own original =
      let kept : Marked built.tags = built-Marked in
      λ i. record built {
        tags = fill_sourcetype-kept "jumphost" sourcetype built.tags own_sourcetype kept i;
      }

  built-judged :
      (later : String)
      → now ≢ ""
      → p.is_time now ≡ true
      → settled class.category ≡ true
      → settled class.severity ≡ true
      → JudgedByTime p later built
  unfolding build_event ensure_defaults
  built-judged later set clock category severity =
      validated_as_is p later built (built-IsComplete set) own_type
        (or_default-settled class.severity "info" severity)
        (or_default-settled class.category "unknown" category) (ground arith) (built-own _)

module _ (submatch : Pattern → String → List String) (p : Platform) (c : Codec) (now : String) where
  -- An event comes from the fields that the text decodes to.
  pub normalize_event-event_of :
      (raw : String) (e : Event)
      → normalize_event submatch p c now raw ≡ some e
      → (fields : Map Value) × (event_of submatch p c now fields ≡ e)
  unfolding normalize_event
  normalize_event-event_of raw e made = elim (Option-cases (p.unmarshal_object raw)) [
    | inl none_read ↦ ground arith
    | inr (fields, decoded) ↦ (fields, ground arith)
  ]

  pub normalize_event-judged :
      (later raw : String) (e : Event)
      → now ≢ ""
      → p.is_time now ≡ true
      → normalize_event submatch p c now raw ≡ some e
      → JudgedByTime p later e
  unfolding event_of
  normalize_event-judged later raw e set clock made =
      let (fields, same) = normalize_event-event_of raw e made in
      let s = parsed_of submatch p fields in
      let (category, severity) = class_of-settled p s.rec s.message in
      subst (JudgedByTime p later) same (
        built-judged p c now s.rec s.raw (class_of p s.rec s.message) later set clock category
          severity)
