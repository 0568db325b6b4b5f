-- ===== src/Normalizer.antt =====
-- internal/normalizer: validator.go and enricher.go. The clock is an argument `now`.
pub mod Validate
pub mod Enrich
use Prim.Native.String.{◌++◌}
use dmz_collector.Base.{
  String, Bool, true, false, ◌||◌, not, List, [], ◌∷◌, Option, none, some, Map, lookup, insert,
  if◌then◌else◌, ◌==◌, exists,
}
use dmz_collector.Text.{to_lower, trim_space, equal_fold, contains, join_blank, switch}
use dmz_collector.Value.{Value, bool, str}
use dmz_collector.SourceUtil.{normalize_source_type, splunk_sourcetype_for, unknown_sourcetype}
use dmz_collector.Event.{Platform, Event, ensure_defaults}

-- What ingesting an event can answer with besides success.
pub data Error : Type 0 where
  invalid_timestamp store_failed spool_failed : Error

pub data Result {ℓ} (A : Type ℓ) : Type ℓ where
  ok : A → Result A
  err : Error → Result A

-- Whether the tag `splunk_sourcetype` has to be filled in: no text, blank, or the placeholder.
unfoldable pub needs_sourcetype : Option Value → Bool
needs_sourcetype (some (str s)) =
    (trim_space s == "") || equal_fold (trim_space s) unknown_sourcetype
needs_sourcetype _ = true

unfoldable pub fill_sourcetype : String → Map Value → Map Value
unfolding needs_sourcetype
fill_sourcetype source_type tags =
    if needs_sourcetype (lookup "splunk_sourcetype" tags)
    then insert "splunk_sourcetype" (str (splunk_sourcetype_for source_type)) tags
    else tags

module _ (p : Platform) where
  tag_string : Map Value → String → String
  tag_string tags key = elim (lookup key tags) [
    | none ↦ ""
    | some v ↦ to_lower (trim_space (p.sprint v))
  ]

  unfoldable pub firewall_category : String → String → Map Value → String → String
  unfolding tag_string
  firewall_category message raw tags source_type =
      let blob = to_lower (
        join_blank (
          message
          ∷ raw
          ∷ source_type
          ∷ tag_string tags "action"
          ∷ tag_string tags "firewall_action"
          ∷ [])) in
      if exists (contains blob) ("drop" ∷ "block" ∷ "deny" ∷ "reject" ∷ "alert" ∷ [])
      then "security"
      else "network"

  firewall_tags : Map Value → Map Value
  firewall_tags tags = insert "siem_index_hint" (str "ot_security") (
      insert "splunk_sourcetype" (str (splunk_sourcetype_for "firewall"))
        (insert "firewall_vendor" (str "opnsense") tags))

  pub normalize_firewall : String → Event → Event
  unfolding firewall_tags
  normalize_firewall original e = record e {
    tags = firewall_tags e.tags;
    event_category =
        if firewall_category e.message e.raw (firewall_tags e.tags) original == "security"
        then "security"
        else "network";
  }

  abbrev pub source_cases : String → Event → List (List String × Event)
  source_cases original e =
      ("firewall" ∷ [], normalize_firewall original e)
      ∷ (
        "gds_agent" ∷ "plc" ∷ "opcua" ∷ "scada" ∷ "ews" ∷ "ids" ∷ "dmz_collector" ∷ "vault"
            ∷ "vault_agent" ∷ "influxdb" ∷ "opcua_dmz_gateway" ∷ "gds" ∷ "postgres_gds" ∷ "jumphost"
            ∷ [],
        record e { tags = fill_sourcetype e.source_type e.tags },
      )
      ∷ []

  -- applySourceSpecificNormalization: a canonical type with no case is left alone.
  unfoldable pub apply_source_specific : String → Event → Event
  unfolding normalize_firewall switch
  apply_source_specific original e = switch e.source_type (source_cases original e) e

  unfoldable pub canonical_form : String → Event → Event
  canonical_form now e = record e {
    received_at = if p.is_time e.received_at then e.received_at else now;
    severity = to_lower (trim_space e.severity);
    event_category = to_lower (trim_space e.event_category);
  }

  unfoldable pub defaulted_form : String → Event → Event
  defaulted_form now e =
      ensure_defaults p now (record e { source_type = normalize_source_type e.source_type })

  -- ValidateAndNormalize
  unfoldable pub validate_and_normalize : String → Event → Result Event
  unfolding canonical_form defaulted_form
  validate_and_normalize now e =
      let original = to_lower (trim_space e.source_type) in
      let d = defaulted_form now e in
      if p.is_time d.timestamp
      then ok (apply_source_specific original (canonical_form now d))
      else err invalid_timestamp

unfoldable pub infer_purdue_zone : Event → String
unfolding switch
infer_purdue_zone e =
    switch (to_lower e.source_type)
      (("plc" ∷ [], "level1")
        ∷ ("scada" ∷ "opcua" ∷ "ews" ∷ [], "level2")
        ∷ (
          "firewall" ∷ "ids" ∷ "dmz_collector" ∷ "vault" ∷ "vault_agent" ∷ "influxdb"
              ∷ "opcua_dmz_gateway" ∷ "gds" ∷ "postgres_gds" ∷ "jumphost" ∷ [],
          "dmz",
        )
        ∷ [])
      "ot"

unfoldable pub index_hint_for : Event → String
index_hint_for e =
    let st = to_lower e.source_type in
    let cat = to_lower e.event_category in
    let sev = to_lower e.severity in
    if st == "ids" || st == "firewall"
    then "ot_security"
    else if cat == "security" || sev == "critical" || sev == "error"
    then "ot_security"
    else if cat == "operator_action" || cat == "operator_read" || cat == "operator_write"
    then "ot_operations"
    else if cat == "runtime" || cat == "system" || cat == "network" || cat == "communication"
    then "ot_telemetry"
    else "ot_security"

-- The Boolean reading of a tag: `true`, or a text equal to "true" in any case.
abbrev pub flag : Option Value → Bool
flag (some (bool b)) = b
flag (some (str s)) = equal_fold s "true"
flag _ = false

unfoldable pub is_high_value : Event → Bool
is_high_value e =
    let cat = to_lower e.event_category in
    let st = to_lower e.source_type in
    let sev = to_lower e.severity in
    if cat == "operator_write" || cat == "security"
    then true
    else if sev == "critical" || sev == "error"
    then true
    else if st == "ids" || st == "firewall"
    then true
    else if flag (lookup "alert_candidate" e.tags)
    then true
    else flag (lookup "sensitive_action" e.tags)

-- The tags of EnrichDMZ up to `purdue_zone`, then the sourcetype, the hint and the mark.
stamped : String → Event → Event
stamped now e = record e {
  tags =
      insert "purdue_zone" (str (infer_purdue_zone e))
        (insert "dmz_received_at" (str now) (insert "dmz_collector" (str "dmz_collector") e.tags));
}

hinted : Event → Event
hinted e = record e {
  tags = insert "siem_index_hint" (str (index_hint_for e)) (fill_sourcetype e.source_type e.tags);
}

-- EnrichDMZ
unfoldable pub enrich_dmz : String → Event → Event
unfolding stamped hinted
enrich_dmz now e =
    let h = hinted (stamped now e) in
    if is_high_value h then record h { tags = insert "high_value" (bool true) h.tags } else h
