-- ===== src/Catalog.antt =====
-- internal/sourcecatalog/catalog.go: the catalogue of sources, configured and discovered.
pub mod Redact
pub mod Observe
pub mod Redaction
pub mod Observation
pub mod View
pub mod Summary
pub mod Totals
use Prim.Native.String.{◌++◌ as append_text}
use dmz_collector.Base.{
  ℕ, ◌+◌, ◌-◌, String, Bool, true, false, ◌&&◌, ◌||◌, not, List, [], ◌∷◌, ◌++◌, Option, none, some,
  Map, lookup, insert, member, if◌then◌else◌, ◌==◌, ltb, length, drop, map,
}
use dmz_collector.Text.{
  to_lower, trim_space, equal_fold, trim_slashes, before_colon, first_non_empty,
}
use dmz_collector.Value.{Value, str}
use dmz_collector.SourceUtil.{
  normalize_source_type, group_for_source_type, splunk_sourcetype_for, unknown_sourcetype,
}
use dmz_collector.Event.{Event}
use dmz_collector.Stats.{bump}

pub record OtConfiguredSource : Type 0 where
  pub id : String
  pub name : String
  pub type : String
  pub ip : String
  pub protocol : String
  pub impact : String
  pub zone : String
  pub enabled : Bool
  pub forward_enabled : Bool
  pub notes : String

-- A row of config.DefaultSources.
pub record SourceStatus : Type 0 where
  pub name : String
  pub type : String
  pub endpoint : String
  pub enabled : Bool

-- sourceState with the SourceRecord in it; the top messages are computed when it is read.
pub record SourceState : Type 0 where
  pub source_key : String
  pub id : String
  pub name : String
  pub source_type : String
  pub asset_ip : String
  pub asset_name : String
  pub protocol : String
  pub impact : String
  pub zone : String
  pub enabled : Bool
  pub forward_enabled : Bool
  pub configured : Bool
  pub discovered : Bool
  pub first_seen : Option String
  pub last_seen : Option String
  pub event_count : ℕ
  pub severity_counts : Map ℕ
  pub category_counts : Map ℕ
  pub siem_index_hint : Option String
  pub splunk_sourcetype : Option String
  pub last_event : Map Value
  pub group : String
  pub message_counts : Map ℕ
  pub recent_events : List (Map Value)

pub record Catalog : Type 0 where
  pub ot_url : String
  pub generated_at : String
  pub records : Map SourceState
  pub seen_event_ids : List String

unfoldable pub new_catalog : String → String → Catalog
new_catalog now ot_url = record {
  ot_url = trim_slashes ot_url;
  generated_at = now;
  records = [];
  seen_event_ids = [];
}

unfoldable pub set_ot_url : String → Catalog → Catalog
set_ot_url ot_url c = record c { ot_url = trim_slashes ot_url }

unfoldable pub source_key : String → String → String → String
source_key source_type asset_ip id =
    let ip = trim_space asset_ip in
    let key_part = if ip == "" then trim_space id else ip in
    append_text (normalize_source_type source_type)
      (append_text ":" (if key_part == "" then "unknown" else key_part))

fresh_state : String → SourceState
fresh_state key = record {
  source_key = key;
  id = "";
  name = "";
  source_type = "";
  asset_ip = "";
  asset_name = "";
  protocol = "";
  impact = "";
  zone = "";
  enabled = false;
  forward_enabled = false;
  configured = false;
  discovered = false;
  first_seen = none;
  last_seen = none;
  event_count = 0;
  severity_counts = [];
  category_counts = [];
  siem_index_hint = none;
  splunk_sourcetype = none;
  last_event = [];
  group = group_for_source_type (before_colon key);
  message_counts = [];
  recent_events = [];
}

-- ensureStateLocked: the state under the key, a fresh one where there is none.
unfoldable pub ensure_state : String → Map SourceState → SourceState
unfolding fresh_state
ensure_state key records = elim (lookup key records) [ none ↦ fresh_state key | some s ↦ s ]

unfoldable pub configure : OtConfiguredSource → String → SourceState → SourceState
configure item key s = record s {
  source_key = key;
  id = first_non_empty (item.id ∷ s.id ∷ key ∷ []);
  name = first_non_empty (item.name ∷ s.name ∷ item.id ∷ []);
  source_type = normalize_source_type item.type;
  asset_ip = first_non_empty (item.ip ∷ s.asset_ip ∷ []);
  asset_name = first_non_empty (item.name ∷ s.asset_name ∷ []);
  protocol = first_non_empty (item.protocol ∷ s.protocol ∷ []);
  impact = first_non_empty (item.impact ∷ s.impact ∷ []);
  zone = first_non_empty (item.zone ∷ s.zone ∷ []);
  enabled = item.enabled;
  forward_enabled = item.forward_enabled;
  configured = true;
  group =
      if s.group == "" then group_for_source_type (normalize_source_type item.type) else s.group;
}

-- mergeConfiguredLocked
unfoldable pub merge_configured : OtConfiguredSource → Map SourceState → Map SourceState
unfolding configure
merge_configured item records =
    let key = source_key (normalize_source_type item.type) item.ip item.id in
    insert key (configure item key (ensure_state key records)) records

merge_all : List OtConfiguredSource → Map SourceState → Map SourceState
merge_all [] records = records
merge_all (item ∷ items) records = merge_all items (merge_configured item records)

unfoldable pub merge_configured_sources : String → List OtConfiguredSource → Catalog → Catalog
unfolding merge_all
merge_configured_sources now items c = record c {
  records = merge_all items c.records;
  generated_at = now;
}

-- Every branch of configuredZoneForType answers the same.
unfoldable pub configured_zone_for_type : String → String
configured_zone_for_type source_type = "DMZ"

converted : SourceStatus → OtConfiguredSource
converted item = record {
  id = item.type;
  name = item.name;
  type = normalize_source_type item.type;
  ip = item.endpoint;
  protocol = "";
  impact = "";
  zone = configured_zone_for_type (normalize_source_type item.type);
  enabled = item.enabled;
  forward_enabled = true;
  notes = "";
}

unfoldable pub seed_configured_sources : String → List SourceStatus → Catalog → Catalog
unfolding converted
seed_configured_sources now items c = merge_configured_sources now (map converted items) c

-- Count
abbrev pub count : Catalog → ℕ
count c = length c.records
