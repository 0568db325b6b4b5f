-- ===== src/Event/Splunk.antt =====
-- internal/event/splunk.go: the payload that an event is sent to Splunk in. The time of a payload is
-- kept as the RFC 3339 text whose instant the code computes.
use dmz_collector.Base.{
  String, not, ◌&&◌, List, Option, none, some, Map, lookup, ◌≡◌, ◌≢◌, arith, eq_iff, if◌then◌else◌,
  ◌==◌, refl, map,
}
use dmz_collector.Value.{Value, null, bool, num, str, arr, obj}
use dmz_collector.SourceUtil.{
  splunk_sourcetype_for, sourcetypes, unknown_sourcetype, normalize_source_type,
}
use dmz_collector.Text.{switch}
use dmz_collector.Text.Laws.{switch-all}
use dmz_collector.Event.{Platform, Event, or_default, parse_object, to_map}
use dmz_collector.Event.RoundTrip.{IsParsed, parse_object-to_map}

pub record SplunkPayload : Type 0 where
  pub time : String
  pub host : String
  pub source : String
  pub sourcetype : String
  pub index : String
  pub event : Map Value

-- The tag, or the sourcetype of the source where the tag is no text, empty or the placeholder.
chosen_sourcetype : String → Option Value → String
chosen_sourcetype fallback (some (str s)) =
    if not (s == "") && not (s == unknown_sourcetype) then s else fallback
chosen_sourcetype fallback _ = fallback

-- BuildSplunkPayload
unfoldable pub build_splunk_payload : Platform → String → Event → String → String → SplunkPayload
unfolding chosen_sourcetype
build_splunk_payload p now e source default_index = record {
  time = if p.is_time e.timestamp then e.timestamp else now;
  host = or_default e.asset_name e.asset_ip;
  source = or_default source e.source;
  sourcetype =
      chosen_sourcetype (splunk_sourcetype_for e.source_type) (lookup "splunk_sourcetype" e.tags);
  index = or_default default_index "ot_security";
  event = to_map e;
}

-- The payloads of MarshalSplunkBatch.
unfoldable pub splunk_batch : Platform → String → List Event → String → String → List SplunkPayload
splunk_batch p now es source default_index =
    map (λ e. build_splunk_payload p now e source default_index) es

splunk_sourcetype_for-ne : (t : String) → splunk_sourcetype_for t ≢ ""
unfolding splunk_sourcetype_for switch
splunk_sourcetype_for-ne t =
    let set =
      switch-all (λ s. not (s == "")) (normalize_source_type t) sourcetypes unknown_sourcetype refl
        refl in
    ground (arith, set, eq_iff (switch (normalize_source_type t) sourcetypes unknown_sourcetype) "")

chosen_sourcetype-ne :
    (fallback : String) (tag : Option Value) → fallback ≢ "" → chosen_sourcetype fallback tag ≢ ""
unfolding chosen_sourcetype
chosen_sourcetype-ne fallback none h = h
chosen_sourcetype-ne fallback (some null) h = h
chosen_sourcetype-ne fallback (some (bool b)) h = h
chosen_sourcetype-ne fallback (some (num n)) h = h
chosen_sourcetype-ne fallback (some (arr vs)) h = h
chosen_sourcetype-ne fallback (some (obj fs)) h = h
chosen_sourcetype-ne fallback (some (str s)) h = ground (arith, eq_iff s "")

-- What Splunk gets of an event in parsed form: its sourcetype and its index are never empty,
-- whatever tags the event has and whatever the configuration leaves out, and its object, parsed
-- again at any clock reading, is the same event but for the original text.
pub build_splunk_payload_lem :
    (p : Platform) (now later text : String) (e : Event) (source default_index : String)
    → IsParsed e
    → let payload = build_splunk_payload p now e source default_index in
      (payload.sourcetype ≢ "")
      × (payload.index ≢ "")
      × (parse_object p later text payload.event ≡ record e { original_raw = text })
unfolding build_splunk_payload
build_splunk_payload_lem p now later text e source default_index parsed = (
  chosen_sourcetype-ne (splunk_sourcetype_for e.source_type) (lookup "splunk_sourcetype" e.tags)
      (splunk_sourcetype_for-ne e.source_type),
  ground (arith, eq_iff default_index "", eq_iff "ot_security" ""),
  parse_object-to_map p later text e parsed,
)
