-- ===== src/Tests/Events.antt =====
-- What the theorems on one event say of the alarm.
use dmz_collector.Base.{
  ◌⊎◌, ◌||◌, ◌==◌, true, false, some, ◌≡◌, ◌≢◌, ◌↔◌, refl, lookup, member, arith, if◌then◌else◌,
  eq_iff,
}
use dmz_collector.Value.{str, bool}
use dmz_collector.Event.{Event, ensure_defaults, parse_object, to_map, or_default}
use dmz_collector.Event.Defaults.{IsComplete, ensure_defaults_stable, id-ensure_defaults}
use dmz_collector.Event.Splunk.{build_splunk_payload, build_splunk_payload_lem}
use dmz_collector.Event.RoundTrip.{IsParsed, parse_object-to_map}
use dmz_collector.SourceUtil.{
  normalize_source_type, is_internal_dmz_source_type, group_for_source_type, splunk_sourcetype_for,
  unknown_sourcetype,
}
use dmz_collector.Text.{to_lower}
use dmz_collector.SourceUtil.Laws.{normalize_source_type_lem, unmapped}
use dmz_collector.Normalizer.{
  validate_and_normalize, invalid_timestamp, err, ok, enrich_dmz, is_high_value, needs_sourcetype,
  infer_purdue_zone, index_hint_for, Result,
}
use dmz_collector.Normalizer.Validate.{
  validate_and_normalize_refuses, validate_and_normalize_accepts,
}
use dmz_collector.Normalizer.Enrich.{enrich_dmz_frame}
use dmz_collector.Tests.{platform, noon, evening, alarm}

alarm-IsComplete : IsComplete alarm
alarm-IsComplete = record {
  id = ground (arith, eq_iff "alarm-1" "");
  timestamp = ground (arith, eq_iff noon "");
  received_at = ground (arith, eq_iff noon "");
  zone = ground (arith, eq_iff "OT" "");
  source_type = ground (arith, eq_iff "plc" "");
  source = ground (arith, eq_iff "plc" "");
  severity = ground (arith, eq_iff "high" "");
  protocol = ground (arith, eq_iff "syslog" "");
  event_category = ground (arith, eq_iff "modbus_write" "");
}

pub alarm-IsParsed : IsParsed alarm
unfolding to_lower normalize_source_type member lookup
alarm-IsParsed = record {
  complete = alarm-IsComplete;
  severity = refl;
  category = refl;
  source_type = refl;
  unknown_keys = (refl, tt);
  distinct = (refl, tt);
}

normalize_source_type_lem_example :
    (normalize_source_type (normalize_source_type "Vault-Audit")
      ≡ normalize_source_type "Vault-Audit")
    × ((is_internal_dmz_source_type "Vault-Audit" ≡ true)
        ↔ (group_for_source_type "Vault-Audit" ≡ "DMZ Services"))
    × ((splunk_sourcetype_for "Vault-Audit" ≡ unknown_sourcetype)
        ↔ (member (normalize_source_type "Vault-Audit") unmapped ≡ true))
normalize_source_type_lem_example = normalize_source_type_lem "Vault-Audit"

abbrev blank : Event
blank = record alarm { id = ""; severity = ""; zone = ""; received_at = "" }

ensure_defaults_stable_example :
    IsComplete (ensure_defaults platform noon blank)
    × (ensure_defaults platform evening (ensure_defaults platform noon blank)
        ≡ ensure_defaults platform noon blank)
ensure_defaults_stable_example =
    ensure_defaults_stable platform noon evening blank (ground (arith, eq_iff noon ""))

id-ensure_defaults_example :
    (ensure_defaults platform noon blank).id
    ≡ (ensure_defaults platform evening (record blank { zone = "DMZ"; source = "gateway" })).id
id-ensure_defaults_example =
    id-ensure_defaults platform noon evening blank
      (record blank { zone = "DMZ"; source = "gateway" }) (ground (arith, eq_iff noon "")) refl refl
      refl refl refl refl refl

parse_object-to_map_example :
    parse_object platform evening "{}" (to_map alarm) ≡ record alarm { original_raw = "{}" }
parse_object-to_map_example = parse_object-to_map platform evening "{}" alarm alarm-IsParsed

abbrev bad : Event
bad = record alarm { timestamp = "yesterday" }

validate_and_normalize_refuses_example :
    ((bad.timestamp ≢ "")
      × (platform.is_time bad.timestamp ≡ false)
      × (validate_and_normalize platform evening bad ≡ err invalid_timestamp))
    ⊎ (((bad.timestamp == "") || platform.is_time bad.timestamp ≡ true)
        × ((f : Event) × (validate_and_normalize platform evening bad ≡ ok f)))
validate_and_normalize_refuses_example = validate_and_normalize_refuses platform evening bad refl

abbrev firewall : Event
firewall = record alarm { id = ""; source_type = " Firewall "; event_category = "" }

abbrev accepted_of : Result Event → Event
accepted_of (ok e) = e
accepted_of (err x) = firewall

abbrev accepted_firewall : Event
accepted_firewall = accepted_of (validate_and_normalize platform evening firewall)

firewall_accepted : validate_and_normalize platform evening firewall ≡ ok accepted_firewall
unfolding validate_and_normalize ensure_defaults
firewall_accepted = refl

validate_and_normalize_accepts_example :
    (platform.is_time accepted_firewall.timestamp ≡ true)
    × (platform.is_time accepted_firewall.received_at ≡ true)
    × (accepted_firewall.source_type ≡ normalize_source_type firewall.source_type)
    × (accepted_firewall.id ≢ "")
    × (accepted_firewall.id ≡ or_default firewall.id accepted_firewall.id)
    × (accepted_firewall.message ≡ firewall.message)
validate_and_normalize_accepts_example =
    validate_and_normalize_accepts platform evening firewall accepted_firewall
      (ground (arith, eq_iff evening "")) refl firewall_accepted

enrich_dmz_frame_example :
    (record (enrich_dmz evening alarm) { tags = alarm.tags } ≡ alarm)
    × (lookup "site" (enrich_dmz evening alarm).tags ≡ lookup "site" alarm.tags)
    × (lookup "dmz_collector" (enrich_dmz evening alarm).tags ≡ some (str "dmz_collector"))
    × (lookup "dmz_received_at" (enrich_dmz evening alarm).tags ≡ some (str evening))
    × (lookup "purdue_zone" (enrich_dmz evening alarm).tags ≡ some (str (infer_purdue_zone alarm)))
    × (lookup "siem_index_hint" (enrich_dmz evening alarm).tags ≡ some (str (index_hint_for alarm)))
    × (lookup "splunk_sourcetype" (enrich_dmz evening alarm).tags ≡ (
        if needs_sourcetype (lookup "splunk_sourcetype" alarm.tags)
        then some (str (splunk_sourcetype_for alarm.source_type))
        else lookup "splunk_sourcetype" alarm.tags))
    × (lookup "high_value" (enrich_dmz evening alarm).tags
        ≡ (if is_high_value alarm then some (bool true) else lookup "high_value" alarm.tags))
unfolding member
enrich_dmz_frame_example = enrich_dmz_frame evening "site" alarm refl

build_splunk_payload_lem_example :
    let payload = build_splunk_payload platform noon alarm "" "" in
    (payload.sourcetype ≢ "")
    × (payload.index ≢ "")
    × (parse_object platform evening "{}" payload.event ≡ record alarm { original_raw = "{}" })
build_splunk_payload_lem_example =
    build_splunk_payload_lem platform noon evening "{}" alarm "" "" alarm-IsParsed
