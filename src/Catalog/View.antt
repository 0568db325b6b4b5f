-- ===== src/Catalog/View.antt =====
-- What the catalogue of internal/sourcecatalog/catalog.go shows: its list, its summary, one source.
-- Copies of maps are the maps themselves.
use Prim.Native.String as Text
use dmz_collector.Base.{
  ℕ, ◌+◌, String, Bool, true, false, ◌&&◌, ◌||◌, not, List, [], ◌∷◌, Map, if◌then◌else◌, ◌==◌, ltb,
  eqb, length, take, sort, Ordering,
}
use dmz_collector.Value.{Value}
use dmz_collector.SourceUtil.{
  is_internal_dmz_source_type, is_direct_siem_source_type, is_placeholder_source_name,
}
use dmz_collector.Catalog.{SourceState, Catalog}

pub record VisibilityOptions : Type 0 where
  pub include_internal : Bool
  pub include_disabled : Bool
  pub include_direct_siem : Bool

-- SourceRecord: the record in the state, with its top messages.
pub record SourceRecord : Type 0 where
  pub state : SourceState
  pub top_messages : Map ℕ

-- The counts that SourceSnapshot and SourceSummary share.
pub record Counts : Type 0 where
  pub visible : ℕ
  pub hidden : ℕ
  pub configured_total : ℕ
  pub discovered_visible : ℕ
  pub internal_hidden : ℕ
  pub disabled_hidden : ℕ
  pub direct_siem_hidden : ℕ

pub record SourceSnapshot : Type 0 where
  pub generated_at : String
  pub ot_collector_url : String
  pub counts : Counts
  pub sources : List SourceRecord

pub record GroupSummary : Type 0 where
  pub source_count : ℕ
  pub configured_count : ℕ
  pub discovered_count : ℕ
  pub event_count : ℕ
  pub severity_counts : Map ℕ
  pub category_counts : Map ℕ

-- The breakdowns of SourceSummary.
pub record Breakdowns : Type 0 where
  pub by_group : Map GroupSummary
  pub by_source_type : Map ℕ
  pub by_zone : Map ℕ
  pub by_severity : Map ℕ
  pub by_category : Map ℕ

pub record SourceSummary : Type 0 where
  pub generated_at : String
  pub counts : Counts
  pub breakdowns : Breakdowns

pub record SourceDetail : Type 0 where
  pub source : SourceRecord
  pub recent_events : List (Map Value)

-- `<` of texts
unfoldable pub before : String → String → Bool
before s t = elim (Text.compare s t) [ Ordering.lt ↦ true | _ ↦ false ]

-- isInternalSourceRecord
unfoldable pub is_internal_source_record : SourceState → Bool
is_internal_source_record s =
    is_internal_dmz_source_type s.source_type
    || (s.group == "DMZ Services")
    || is_placeholder_source_name s.name

unfoldable pub should_include_source : SourceState → VisibilityOptions → Bool
unfolding is_internal_source_record
should_include_source s opts =
    if opts.include_disabled
    then true
    else if is_direct_siem_source_type s.source_type
    then opts.include_direct_siem
    else if is_internal_source_record s
    then opts.include_internal
    else s.enabled

-- Higher counts first, then by the message.
unfoldable pub message_before : String × ℕ → String × ℕ → Bool
unfolding before
message_before a b = if eqb a.1 b.1 then before a.0 b.0 else ltb b.1 a.1

-- topMessages, the order of a map being no matter.
unfoldable pub top_messages : Map ℕ → ℕ → Map ℕ
unfolding message_before
top_messages counts limit =
    let pairs = sort message_before counts in
    take (if eqb limit 0 || ltb (length pairs) limit then length pairs else limit) pairs

-- snapshot of a sourceState
unfoldable pub snapshot_of : SourceState → SourceRecord
unfolding top_messages
snapshot_of s = record { state = s; top_messages = top_messages s.message_counts 5 }

-- The order of sortSources.
unfoldable pub source_before : SourceRecord → SourceRecord → Bool
unfolding before
source_before a b =
    let x = a.state in
    let y = b.state in
    if not (x.group == y.group)
    then before x.group y.group
    else if not (x.source_type == y.source_type)
    then before x.source_type y.source_type
    else if not (x.name == y.name)
    then before x.name y.name
    else if not (x.asset_ip == y.asset_ip)
    then before x.asset_ip y.asset_ip
    else before x.id y.id

unfoldable pub one : Bool → ℕ
one b = if b then 1 else 0

-- One source of the loops of Snapshot and Summary.
unfoldable pub count_source : VisibilityOptions → SourceState → Counts → Counts
unfolding one
count_source opts s n =
    let shown = should_include_source s opts in
    record {
      visible = n.visible + one shown;
      hidden = n.hidden + one (not shown);
      configured_total = n.configured_total + one s.configured;
      discovered_visible = n.discovered_visible + one (shown && s.discovered);
      internal_hidden = n.internal_hidden + one (not shown && is_internal_source_record s);
      disabled_hidden = n.disabled_hidden + one (not shown && not s.enabled);
      direct_siem_hidden =
          n.direct_siem_hidden + one (not shown && is_direct_siem_source_type s.source_type);
    }

abbrev pub no_counts : Counts
no_counts = record {
  visible = 0;
  hidden = 0;
  configured_total = 0;
  discovered_visible = 0;
  internal_hidden = 0;
  disabled_hidden = 0;
  direct_siem_hidden = 0;
}

unfoldable pub counts_of : VisibilityOptions → Map SourceState → Counts → Counts
counts_of opts [] n = n
counts_of opts ((key, s) ∷ records) n = counts_of opts records (count_source opts s n)

unfoldable pub shown_sources : VisibilityOptions → Map SourceState → List SourceRecord
unfolding snapshot_of
shown_sources opts [] = []
shown_sources opts ((key, s) ∷ records) =
    let rest = shown_sources opts records in
    if should_include_source s opts then snapshot_of s ∷ rest else rest

-- Snapshot
unfoldable pub snapshot : Catalog → VisibilityOptions → SourceSnapshot
unfolding counts_of shown_sources source_before
snapshot c opts = record {
  generated_at = c.generated_at;
  ot_collector_url = c.ot_url;
  counts = counts_of opts c.records no_counts;
  sources = sort source_before (shown_sources opts c.records);
}
