-- ===== src/Catalog/Totals.antt =====
-- What Snapshot and Summary of internal/sourcecatalog/catalog.go add up to.
use dmz_collector.Base.{
  ℕ, ◌+◌, String, Bool, List, [], ◌∷◌, Map, lookup, insert, ◌≡◌, refl, arith, length, Bool-cases,
  ap, ◌∙◌, inl, inr, subst, sort, insert_sorted,
}
use dmz_collector.Stats.{count_of}
use dmz_collector.Stats.Counts.{sum}
use dmz_collector.Catalog.{SourceState, Catalog}
use dmz_collector.Catalog.Observation.{IsCounted, AllCounted}
use dmz_collector.Catalog.View.{
  VisibilityOptions, SourceRecord, Counts, GroupSummary, Breakdowns, should_include_source,
  snapshot_of, count_source, counts_of, no_counts, shown_sources, snapshot, source_before,
}
use dmz_collector.Catalog.Summary.{
  add_count, merge_counts, group_of, grow_group, add_source, breakdowns_of, no_breakdowns, summary,
  tally_source, tallies_of,
}

length-insert_sorted {ℓ} :
    {A : Type ℓ} (less : A → A → Bool) (x : A) (xs : List A)
    → length (insert_sorted less x xs) ≡ length xs + 1
unfolding insert_sorted
length-insert_sorted less x [] = refl
length-insert_sorted less x (y ∷ ys) = ground (arith, length-insert_sorted less x ys)

length-sort {ℓ} :
    {A : Type ℓ} (less : A → A → Bool) (xs : List A) → length (sort less xs) ≡ length xs
unfolding sort
length-sort less [] = refl
length-sort less (x ∷ xs) =
    ground (arith, length-sort less xs, length-insert_sorted less x (sort less xs))

sum-add_count : (k : String) (n : ℕ) (m : Map ℕ) → sum (add_count k n m) ≡ sum m + n
unfolding sum add_count count_of lookup insert
sum-add_count k n [] = omega arith
sum-add_count k n ((j, v) ∷ m) = ground (arith, sum-add_count k n m)

sum-merge_counts : (dst src : Map ℕ) → sum (merge_counts dst src) ≡ sum dst + sum src
unfolding sum merge_counts
sum-merge_counts dst [] = omega arith
sum-merge_counts dst ((k, n) ∷ src) =
    ground (arith, sum-merge_counts (add_count k n dst) src, sum-add_count k n dst)

-- The events of the groups of a summary, and of the sources that a snapshot shows.
unfoldable pub group_events : Map GroupSummary → ℕ
group_events [] = 0
group_events ((name, g) ∷ groups) = g.event_count + group_events groups

unfoldable pub shown_events : List SourceRecord → ℕ
shown_events [] = 0
shown_events (r ∷ rs) = r.state.event_count + shown_events rs

group_events-insert :
    (name : String) (s : SourceState) (groups : Map GroupSummary)
    → group_events (insert name (grow_group s (group_of name groups)) groups)
      ≡ group_events groups + s.event_count
unfolding group_events group_of grow_group lookup insert
group_events-insert name s [] = omega arith
group_events-insert name s ((j, g) ∷ groups) = ground (arith, group_events-insert name s groups)

-- Every breakdown counts so many events.
record AddUp (b : Breakdowns) (n : ℕ) : Type 0 where
  pub group : group_events b.by_group ≡ n
  pub source_type : sum b.by_source_type ≡ n
  pub zone : sum b.by_zone ≡ n
  pub severity : sum b.by_severity ≡ n
  pub category : sum b.by_category ≡ n

add_source-AddUp :
    (s : SourceState) (b : Breakdowns) (n : ℕ)
    → IsCounted s
    → AddUp b n
    → AddUp (add_source s b) (n + s.event_count)
unfolding add_source
add_source-AddUp s b n counted t = ground (
  arith,
  group_events-insert s.group s b.by_group,
  sum-add_count s.source_type s.event_count b.by_source_type,
  sum-add_count s.zone s.event_count b.by_zone,
  sum-merge_counts b.by_severity s.severity_counts,
  sum-merge_counts b.by_category s.category_counts,
)

breakdowns_of-AddUp :
    (opts : VisibilityOptions) (records : Map SourceState) (b : Breakdowns) (n : ℕ)
    → AllCounted records
    → AddUp b n
    → AddUp (breakdowns_of opts records b) (n + shown_events (shown_sources opts records))
unfolding breakdowns_of shown_events shown_sources snapshot_of
breakdowns_of-AddUp opts [] b n a t = ground (arith, t.group)
breakdowns_of-AddUp opts ((key, s) ∷ records) b n a t =
    elim (Bool-cases (should_include_source s opts)) [
      | inl shown ↦ rw shown (
          subst (AddUp (breakdowns_of opts records (add_source s b))) (omega arith) (
            breakdowns_of-AddUp opts records (add_source s b) (n + s.event_count) a.1
              (add_source-AddUp s b n a.0 t)))
      | inr hidden ↦ rw hidden (breakdowns_of-AddUp opts records b n a.1 t)
    ]

tally_source-count_source :
    (opts : VisibilityOptions) (s : SourceState) (n : Counts)
    → tally_source opts s n ≡ count_source opts s n
unfolding tally_source count_source dmz_collector.Catalog.View.one
tally_source-count_source opts s n = ground arith

-- The loop of Summary counts as that of Snapshot does.
tallies_of-counts_of :
    (opts : VisibilityOptions) (records : Map SourceState) (n : Counts)
    → tallies_of opts records n ≡ counts_of opts records n
unfolding tallies_of counts_of
tallies_of-counts_of opts [] n = refl
tallies_of-counts_of opts ((key, s) ∷ records) n =
    tallies_of-counts_of opts records (tally_source opts s n)
    ∙ ap (counts_of opts records) (tally_source-count_source opts s n)

counts_of-visible :
    (opts : VisibilityOptions) (records : Map SourceState) (n : Counts)
    → (counts_of opts records n).visible ≡ n.visible + length (shown_sources opts records)
unfolding counts_of count_source dmz_collector.Catalog.View.one shown_sources
counts_of-visible opts [] n = omega arith
counts_of-visible opts ((key, s) ∷ records) n =
    ground (arith, counts_of-visible opts records (count_source opts s n))

counts_of-all :
    (opts : VisibilityOptions) (records : Map SourceState) (n : Counts)
    → (counts_of opts records n).visible + (counts_of opts records n).hidden
      ≡ n.visible + n.hidden + length records
unfolding counts_of count_source dmz_collector.Catalog.View.one
counts_of-all opts [] n = omega arith
counts_of-all opts ((key, s) ∷ records) n =
    ground (arith, counts_of-all opts records (count_source opts s n))

shown_events-insert_sorted :
    (less : SourceRecord → SourceRecord → Bool) (r : SourceRecord) (rs : List SourceRecord)
    → shown_events (insert_sorted less r rs) ≡ r.state.event_count + shown_events rs
unfolding insert_sorted shown_events
shown_events-insert_sorted less r [] = refl
shown_events-insert_sorted less r (x ∷ rs) = ground (arith, shown_events-insert_sorted less r rs)

shown_events-sort :
    (less : SourceRecord → SourceRecord → Bool) (rs : List SourceRecord)
    → shown_events (sort less rs) ≡ shown_events rs
unfolding sort shown_events
shown_events-sort less [] = refl
shown_events-sort less (r ∷ rs) =
    omega (arith, shown_events-insert_sorted less r (sort less rs), shown_events-sort less rs)

no_breakdowns-AddUp : AddUp no_breakdowns 0
unfolding group_events sum
no_breakdowns-AddUp = ground arith

-- The list and the summary of a catalogue whose sources' breakdowns add up to their events give the
-- same counts; each source is counted as visible or as hidden, and the list holds as many sources
-- as are visible. In the summary the groups, the source types, the zones, the severities and the
-- categories each add up to the events of the sources in the list.
pub summary_lem :
    (c : Catalog) (opts : VisibilityOptions)
    → AllCounted c.records
    → let shown = (snapshot c opts).sources in
      let s = summary c opts in
      (s.counts ≡ (snapshot c opts).counts)
      × (s.counts.visible + s.counts.hidden ≡ length c.records)
      × (length shown ≡ s.counts.visible)
      × (group_events s.breakdowns.by_group ≡ shown_events shown)
      × (sum s.breakdowns.by_source_type ≡ shown_events shown)
      × (sum s.breakdowns.by_zone ≡ shown_events shown)
      × (sum s.breakdowns.by_severity ≡ shown_events shown)
      × (sum s.breakdowns.by_category ≡ shown_events shown)
unfolding summary snapshot
summary_lem c opts counted =
    let t = breakdowns_of-AddUp opts c.records no_breakdowns 0 counted no_breakdowns-AddUp in
    let same = shown_events-sort source_before (shown_sources opts c.records) in
    let visible = counts_of-visible opts c.records no_counts in
    rw (tallies_of-counts_of opts c.records no_counts) (
      refl,
      omega (arith, counts_of-all opts c.records no_counts),
      omega (arith, visible, length-sort source_before (shown_sources opts c.records)),
      omega (arith, same, t.group),
      omega (arith, same, t.source_type),
      omega (arith, same, t.zone),
      omega (arith, same, t.severity),
      omega (arith, same, t.category),
    )
