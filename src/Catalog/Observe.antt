-- ===== src/Catalog/Observe.antt =====
-- internal/sourcecatalog/catalog.go: ObserveEvent, and the events that a start observes again.
use dmz_collector.Base.{
  ◌+◌, ◌-◌, String, Bool, true, false, ◌||◌, not, List, [], ◌∷◌, ◌++◌, Option, none, some, Map,
  lookup, insert, member, if◌then◌else◌, ◌==◌, ltb, length, drop,
}
use dmz_collector.Text.{to_lower, trim_space, equal_fold, first_non_empty}
use dmz_collector.Value.{Value, str}
use dmz_collector.SourceUtil.{
  normalize_source_type, group_for_source_type, splunk_sourcetype_for, unknown_sourcetype,
}
use dmz_collector.Event.{Event}
use dmz_collector.Stats.{bump}
use dmz_collector.Catalog.Redact.{redact_event_for_ui}
use dmz_collector.Catalog.{SourceState, Catalog, source_key, ensure_state}

abbrev or_keep : String → String → String
or_keep old new = if old == "" then new else old

-- The text of a tag, trimmed, where it is a text that is not blank.
unfoldable pub tag_text : String → Map Value → Option String
tag_text key tags = elim (lookup key tags) [
  | some (str s) ↦ if trim_space s == "" then none else some (trim_space s)
  | _ ↦ none
]

unfoldable pub observed_hint : Event → Option String → Option String
observed_hint ev old = elim (tag_text "siem_index_hint" ev.tags) [
  | some hint ↦ some hint
  | none ↦ if ev.source_type == "firewall" then some "ot_security" else old
]

unfoldable pub observed_sourcetype : Event → String
observed_sourcetype ev = elim (tag_text "splunk_sourcetype" ev.tags) [
  | some s ↦ if equal_fold s unknown_sourcetype then splunk_sourcetype_for ev.source_type else s
  | none ↦ splunk_sourcetype_for ev.source_type
]

-- The last 50 of the events, the new one included.
unfoldable pub remember : Map Value → List (Map Value) → List (Map Value)
remember e recent =
    let longer = recent ++ e ∷ [] in
    if ltb 50 (length longer) then drop (length longer - 50) longer else longer

-- What ObserveEvent writes into the state, for an event whose source type is canonical.
unfoldable pub observed : Event → String → SourceState → SourceState
unfolding observed_hint observed_sourcetype remember
observed ev key s =
    let id =
      if s.id == ""
      then first_non_empty (ev.id ∷ ev.source ∷ ev.asset_name ∷ ev.asset_ip ∷ key ∷ [])
      else s.id in
    let message = trim_space ev.message in
    record s {
      source_key = key;
      id = id;
      name =
          if (s.name == "") || not s.configured
          then first_non_empty (ev.asset_name ∷ ev.source ∷ ev.asset_ip ∷ s.name ∷ id ∷ [])
          else s.name;
      source_type = normalize_source_type ev.source_type;
      asset_ip = or_keep s.asset_ip ev.asset_ip;
      asset_name = or_keep s.asset_name ev.asset_name;
      protocol = or_keep s.protocol ev.protocol;
      zone = or_keep s.zone ev.zone;
      first_seen = elim s.first_seen [ none ↦ some ev.received_at | some t ↦ some t ];
      last_seen = some ev.received_at;
      event_count = s.event_count + 1;
      severity_counts = bump (to_lower (trim_space ev.severity)) s.severity_counts;
      category_counts = bump (to_lower (trim_space ev.event_category)) s.category_counts;
      message_counts = if message == "" then s.message_counts else bump message s.message_counts;
      siem_index_hint = observed_hint ev s.siem_index_hint;
      splunk_sourcetype = some (observed_sourcetype ev);
      last_event = redact_event_for_ui ev;
      recent_events = remember (redact_event_for_ui ev) s.recent_events;
      group = group_for_source_type (normalize_source_type ev.source_type);
      discovered = true;
      enabled = if s.configured then s.enabled else true;
    }

unfoldable pub record_event : String → Event → Catalog → Catalog
record_event now ev c =
    let key = source_key ev.source_type ev.asset_ip ev.id in
    record c {
      records = insert key (observed ev key (ensure_state key c.records)) c.records;
      generated_at = now;
    }

-- ObserveEvent: an event whose id was seen is passed over.
unfoldable pub observe_event : String → Event → Catalog → Catalog × Bool
unfolding record_event
observe_event now event c =
    let ev = record event { source_type = normalize_source_type event.source_type } in
    if ev.id == ""
    then (record_event now ev c, true)
    else if member ev.id c.seen_event_ids
    then (c, false)
    else (record_event now ev (record c { seen_event_ids = ev.id ∷ c.seen_event_ids }), true)

unfoldable pub bootstrap_events : String → List Event → Catalog → Catalog
bootstrap_events now [] c = c
bootstrap_events now (ev ∷ evs) c = bootstrap_events now evs (observe_event now ev c).0
