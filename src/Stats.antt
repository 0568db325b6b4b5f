-- ===== src/Stats.antt =====
-- internal/stats/stats.go: the counters over all accepted events.
pub mod Counts
pub mod Top
use Prim.Native.String.{compare}
use text.Mathlib.Text.{is_lt}
use dmz_collector.Base.{
  ℕ, ◌+◌, String, Bool, true, false, ◌&&◌, ◌||◌, not, List, [], ◌∷◌, Option, none, some, Map,
  lookup, insert, if◌then◌else◌, ◌==◌, eqb, ltb, length,
}
use dmz_collector.Text.{trim_space, equal_fold}
use dmz_collector.Value.{Value, bool, str}
use dmz_collector.SourceUtil.{normalize_source_type, splunk_sourcetype_for, unknown_sourcetype}
use dmz_collector.Event.{Platform, Clock, Event}

pub record SourceInfo : Type 0 where
  pub asset_name : String
  pub asset_ip : String
  pub source_type : String
  pub event_count : ℕ
  pub last_seen : String

pub record Stats : Type 0 where
  pub total_received : ℕ
  pub security_count : ℕ
  pub high_value : ℕ
  pub by_source : Map ℕ
  pub by_severity : Map ℕ
  pub by_category : Map ℕ
  pub by_sourcetype : Map ℕ
  pub by_asset : Map ℕ
  pub timeline : Map ℕ
  pub sources : Map SourceInfo
  pub rate_second : ℕ
  pub rate_count : ℕ
  pub rate_eps : ℕ
  pub latest_event_timestamp : String

unfoldable pub new_stats : Stats
new_stats = record {
  total_received = 0;
  security_count = 0;
  high_value = 0;
  by_source = [];
  by_severity = [];
  by_category = [];
  by_sourcetype = [];
  by_asset = [];
  timeline = [];
  sources = [];
  rate_second = 0;
  rate_count = 0;
  rate_eps = 0;
  latest_event_timestamp = "";
}

-- Reading a count that is not there gives Go's zero.
unfoldable pub count_of : String → Map ℕ → ℕ
count_of k m = elim (lookup k m) [ none ↦ 0 | some n ↦ n ]

-- `m[k]++`
unfoldable pub bump : String → Map ℕ → Map ℕ
bump k m = insert k (count_of k m + 1) m

-- The sourcetype that an event counts under: its tag, unless that is blank or the placeholder.
unfoldable pub sourcetype_of : Event → String
sourcetype_of e = elim (lookup "splunk_sourcetype" e.tags) [
  | some (str v) ↦
      let trimmed = trim_space v in
      if not (trimmed == "") && not (equal_fold trimmed unknown_sourcetype)
      then trimmed
      else splunk_sourcetype_for e.source_type
  | _ ↦ splunk_sourcetype_for e.source_type
]

unfoldable pub has_high_value : Event → Bool
has_high_value e = elim (lookup "high_value" e.tags) [ some (bool b) ↦ b | _ ↦ false ]

unfoldable pub add_source : Event → Map SourceInfo → Map SourceInfo
add_source e m =
    let key = if e.asset_ip == "" then e.asset_name else e.asset_ip in
    let seen : ℕ = elim (lookup key m) [ none ↦ 0 | some src ↦ src.event_count ] in
    insert key
      (record {
        asset_name = e.asset_name;
        asset_ip = e.asset_ip;
        source_type = e.source_type;
        event_count = seen + 1;
        last_seen = e.received_at;
      })
      m

unfoldable pub later_of : String → String → String
later_of latest received =
    if not (received == "") && ((latest == "") || is_lt (compare latest received))
    then received
    else latest

unfoldable pub bump_rate : ℕ → Stats → Stats
bump_rate second s =
    if eqb s.rate_second second
    then record s { rate_count = s.rate_count + 1 }
    else record s { rate_second = second; rate_eps = s.rate_count; rate_count = 1 }

module _ (p : Platform) where
  unfoldable pub bucket : Clock → String → String
  bucket t ts = elim (p.minute_of ts) [ some minute ↦ minute | none ↦ t.minute ]

  counted : Clock → Event → Stats → Stats
  counted t e s = record s {
    total_received = s.total_received + 1;
    by_source = bump e.source_type s.by_source;
    by_severity = bump e.severity s.by_severity;
    by_category = bump e.event_category s.by_category;
    by_sourcetype = bump (sourcetype_of e) s.by_sourcetype;
    by_asset = bump e.asset_name s.by_asset;
    timeline = bump (bucket t e.received_at) s.timeline;
    security_count = s.security_count + (if e.event_category == "security" then 1 else 0);
    high_value = s.high_value + (if has_high_value e then 1 else 0);
    sources = add_source e s.sources;
    latest_event_timestamp = later_of s.latest_event_timestamp e.received_at;
  }

  -- Add
  unfoldable pub add : Clock → Event → Stats → Stats
  unfolding counted
  add t e s =
      bump_rate t.second
        (counted t (record e { source_type = normalize_source_type e.source_type }) s)

-- SeverityCount
unfoldable pub severity_count : String → Stats → ℕ
severity_count level s = count_of level s.by_severity

-- SourceCount
unfoldable pub source_count : Stats → ℕ
source_count s = length s.sources

-- The loop of topOne, over the map in whatever order it comes.
top_from : String → ℕ → Map ℕ → String × ℕ
top_from key val [] = (key, val)
top_from key val ((k, v) ∷ m) =
    let taken = ltb val v || (key == "") in
    top_from (if taken then k else key) (if taken then v else val) m

unfoldable pub top_one : Map ℕ → String × ℕ
unfolding top_from
top_one m = top_from "" 0 m
