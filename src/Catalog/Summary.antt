-- ===== src/Catalog/Summary.antt =====
-- Summary and Detail of internal/sourcecatalog/catalog.go.
use dmz_collector.Base.{
  not, ℕ, ◌+◌, ◌-◌, String, [], ◌∷◌, Option, none, some, Map, lookup, insert, if◌then◌else◌, eqb,
  length, drop,
}
use dmz_collector.SourceUtil.{normalize_source_type, is_direct_siem_source_type}
use dmz_collector.Stats.{count_of}
use dmz_collector.Catalog.{SourceState, Catalog, source_key}
use dmz_collector.Catalog.View.{
  VisibilityOptions, GroupSummary, Breakdowns, SourceSummary, SourceDetail, should_include_source,
  snapshot_of, no_counts, Counts, one, is_internal_source_record,
}

-- `m[k] += n`
unfoldable pub add_count : String → ℕ → Map ℕ → Map ℕ
add_count k n m = insert k (count_of k m + n) m

unfoldable pub merge_counts : Map ℕ → Map ℕ → Map ℕ
unfolding add_count
merge_counts dst [] = dst
merge_counts dst ((k, n) ∷ src) = merge_counts (add_count k n dst) src

abbrev no_group : GroupSummary
no_group = record {
  source_count = 0;
  configured_count = 0;
  discovered_count = 0;
  event_count = 0;
  severity_counts = [];
  category_counts = [];
}

unfoldable pub group_of : String → Map GroupSummary → GroupSummary
group_of name groups = elim (lookup name groups) [ none ↦ no_group | some g ↦ g ]

unfoldable pub grow_group : SourceState → GroupSummary → GroupSummary
unfolding merge_counts
grow_group s g = record {
  source_count = g.source_count + 1;
  configured_count = g.configured_count + (if s.configured then 1 else 0);
  discovered_count = g.discovered_count + (if s.discovered then 1 else 0);
  event_count = g.event_count + s.event_count;
  severity_counts = merge_counts g.severity_counts s.severity_counts;
  category_counts = merge_counts g.category_counts s.category_counts;
}

-- A visible source in the loop of Summary.
unfoldable pub add_source : SourceState → Breakdowns → Breakdowns
unfolding group_of grow_group add_count merge_counts
add_source s b = record {
  by_group = insert s.group (grow_group s (group_of s.group b.by_group)) b.by_group;
  by_source_type = add_count s.source_type s.event_count b.by_source_type;
  by_zone = add_count s.zone s.event_count b.by_zone;
  by_severity = merge_counts b.by_severity s.severity_counts;
  by_category = merge_counts b.by_category s.category_counts;
}

-- The counts of one source in the loop of Summary.
unfoldable pub tally_source : VisibilityOptions → SourceState → Counts → Counts
unfolding one
tally_source opts s n =
    let m = record n { configured_total = n.configured_total + one s.configured } in
    if not (should_include_source s opts)
    then record m {
      hidden = m.hidden + 1;
      internal_hidden = m.internal_hidden + one (is_internal_source_record s);
      disabled_hidden = m.disabled_hidden + one (not s.enabled);
      direct_siem_hidden = m.direct_siem_hidden + one (is_direct_siem_source_type s.source_type);
    }
    else record m {
      visible = m.visible + 1;
      discovered_visible = m.discovered_visible + one s.discovered;
    }

unfoldable pub tallies_of : VisibilityOptions → Map SourceState → Counts → Counts
unfolding tally_source
tallies_of opts [] n = n
tallies_of opts ((key, s) ∷ records) n = tallies_of opts records (tally_source opts s n)

unfoldable pub breakdowns_of : VisibilityOptions → Map SourceState → Breakdowns → Breakdowns
unfolding add_source
breakdowns_of opts [] b = b
breakdowns_of opts ((key, s) ∷ records) b =
    breakdowns_of opts records (if should_include_source s opts then add_source s b else b)

abbrev pub no_breakdowns : Breakdowns
no_breakdowns = record {
  by_group = [];
  by_source_type = [];
  by_zone = [];
  by_severity = [];
  by_category = [];
}

-- Summary
unfoldable pub summary : Catalog → VisibilityOptions → SourceSummary
unfolding breakdowns_of tallies_of
summary c opts = record {
  generated_at = c.generated_at;
  counts = tallies_of opts c.records no_counts;
  breakdowns = breakdowns_of opts c.records no_breakdowns;
}

-- Detail: the last events of a source, 50 where no limit is given.
unfoldable pub detail : Catalog → String → String → ℕ → Option SourceDetail
detail c source_type asset_ip limit =
    let bound = if eqb limit 0 then 50 else limit in
    elim (lookup (source_key (normalize_source_type source_type) asset_ip "") c.records) [
      | none ↦ none
      | some s ↦ some (record {
        source = snapshot_of s;
        recent_events = drop (length s.recent_events - bound) s.recent_events;
      })
    ]
