-- ===== src/Catalog/Observation.antt =====
-- What MergeConfiguredSources and ObserveEvent keep true of the catalogue.
use dmz_collector.Base.{
  ◌+◌, ◌-◌, ◌≤◌, String, false, List, [], ◌∷◌, ◌++◌, some, Map, lookup, insert, member, ◌≡◌, ◌≢◌,
  arith, length, length-append, length-drop, All, eq_iff, eq_refl, ◌==◌, Bool-cases, Option-cases,
  inl, inr, subst,
}
use dmz_collector.SourceUtil.{normalize_source_type}
use dmz_collector.Value.{Value}
use dmz_collector.Event.{Event}
use dmz_collector.Stats.Counts.{sum, sum-bump}
use dmz_collector.Text.{to_lower, trim_space}
use dmz_collector.Catalog.Redact.{redact_event_for_ui}
use dmz_collector.Catalog.{
  OtConfiguredSource, SourceState, Catalog, source_key, ensure_state, fresh_state, configure,
  merge_configured, merge_all, merge_configured_sources, new_catalog,
}
use dmz_collector.Catalog.Observe.{remember, observed, record_event, observe_event}

-- The breakdowns of a source add up to its events, and its recent events are at most 50 of them.
pub record IsCounted (s : SourceState) : Type 0 where
  pub severities : sum s.severity_counts ≡ s.event_count
  pub categories : sum s.category_counts ≡ s.event_count
  pub messages : sum s.message_counts ≤ s.event_count
  pub recent : length s.recent_events ≤ 50
  pub seen : length s.recent_events ≤ s.event_count

abbrev pub AllCounted : Map SourceState → Type 0
AllCounted = All (λ ks. IsCounted ks.1)

insert-All :
    (k : String) (s : SourceState) (m : Map SourceState)
    → IsCounted s
    → AllCounted m
    → AllCounted (insert k s m)
unfolding insert
insert-All k s [] h a = (h, tt)
insert-All k s ((j, t) ∷ m) h a = ground (arith, insert-All k s m h a.1)

lookup-All :
    (k : String) (s : SourceState) (m : Map SourceState)
    → AllCounted m
    → lookup k m ≡ some s
    → IsCounted s
unfolding lookup
lookup-All k s [] a e = cc
lookup-All k s ((j, t) ∷ m) a e = elim (Bool-cases (j == k)) [
  | inl hit ↦ subst IsCounted (ground arith) a.0
  | inr miss ↦ lookup-All k s m a.1 (ground arith)
]

fresh-IsCounted : (k : String) → IsCounted (fresh_state k)
unfolding fresh_state sum
fresh-IsCounted k = ground arith

ensure-IsCounted : (k : String) (m : Map SourceState) → AllCounted m → IsCounted (ensure_state k m)
unfolding ensure_state
ensure-IsCounted k m a = elim (Option-cases (lookup k m)) [
  | inl new ↦ rw (new, ensure_state) (fresh-IsCounted k)
  | inr (s, old) ↦ rw (old, ensure_state) (lookup-All k s m a old)
]

configure-IsCounted :
    (item : OtConfiguredSource) (k : String) (s : SourceState)
    → IsCounted s
    → IsCounted (configure item k s)
unfolding configure
configure-IsCounted item k s v = record {
  severities = v.severities;
  categories = v.categories;
  messages = v.messages;
  recent = v.recent;
  seen = v.seen;
}

remember-length :
    (e : Map Value) (recent : List (Map Value))
    → length recent ≤ 50
    → (length (remember e recent) ≤ 50) × (length (remember e recent) ≤ length recent + 1)
unfolding remember
remember-length e recent h =
    let longer = recent ++ e ∷ [] in
    ground (arith, length-append recent (e ∷ []), length-drop (length longer - 50) longer)

observed-IsCounted :
    (ev : Event) (k : String) (s : SourceState) → IsCounted s → IsCounted (observed ev k s)
unfolding observed
observed-IsCounted ev k s v =
    let short = remember-length (redact_event_for_ui ev) s.recent_events v.recent in
    let by_severity = sum-bump (to_lower (trim_space ev.severity)) s.severity_counts in
    let by_category = sum-bump (to_lower (trim_space ev.event_category)) s.category_counts in
    let by_message = sum-bump (trim_space ev.message) s.message_counts in
    let old_seen = v.seen in
    let old_messages = v.messages in
    record {
      severities = omega (arith, by_severity, v.severities);
      categories = omega (arith, by_category, v.categories);
      messages = ground arith;
      recent = short.0;
      seen = omega (arith, short.1, old_seen);
    }

record_event-AllCounted :
    (now : String) (ev : Event) (c : Catalog)
    → AllCounted c.records
    → AllCounted (record_event now ev c).records
unfolding record_event
record_event-AllCounted now ev c a =
    let key = source_key ev.source_type ev.asset_ip ev.id in
    insert-All key _ c.records
      (observed-IsCounted ev key (ensure_state key c.records) (ensure-IsCounted key c.records a)) a

merge_all-AllCounted :
    (items : List OtConfiguredSource) (m : Map SourceState)
    → AllCounted m
    → AllCounted (merge_all items m)
unfolding merge_all merge_configured
merge_all-AllCounted [] m a = a
merge_all-AllCounted (item ∷ items) m a =
    let key = source_key (normalize_source_type item.type) item.ip item.id in
    merge_all-AllCounted items (insert key (configure item key (ensure_state key m)) m) (
      insert-All key _ m
        (configure-IsCounted item key (ensure_state key m) (ensure-IsCounted key m a)) a)

-- What happens to the catalogue: rows of the OT collector are merged, and events observed.
pub data Step : Type 0 where
  merges : String → List OtConfiguredSource → Step
  observes : String → Event → Step

pub step : Step → Catalog → Catalog
step (merges now items) c = merge_configured_sources now items c
step (observes now ev) c = (observe_event now ev c).0

step-AllCounted : (st : Step) (c : Catalog) → AllCounted c.records → AllCounted (step st c).records
unfolding step merge_configured_sources observe_event
step-AllCounted (merges now items) c a = merge_all-AllCounted items c.records a
step-AllCounted (observes now event) c a =
    let ev = record event { source_type = normalize_source_type event.source_type } in
    ground (
      arith,
      record_event-AllCounted now ev c a,
      record_event-AllCounted now ev (record c { seen_event_ids = ev.id ∷ c.seen_event_ids }) a,
    )

pub run : List Step → Catalog → Catalog
run [] c = c
run (st ∷ sts) c = run sts (step st c)

run_from : (sts : List Step) (c : Catalog) → AllCounted c.records → AllCounted (run sts c).records
unfolding run
run_from [] c a = a
run_from (st ∷ sts) c a = run_from sts (step st c) (step-AllCounted st c a)

-- After any merges and observations from a new catalogue, for each of its sources the events by
-- severity and those by category each add up to the events of the source, those by message to at
-- most so many, and its recent events are at most 50 and at most its events.
pub run-AllCounted :
    (now ot_url : String) (sts : List Step) → AllCounted (run sts (new_catalog now ot_url)).records
unfolding new_catalog
run-AllCounted now ot_url sts = run_from sts (new_catalog now ot_url) tt

-- An event with an id is counted once: a second event under that id, whatever it carries and
-- whenever it comes, leaves the catalogue as the first left it, and is answered by false.
pub observe_event_again :
    (now later : String) (first second : Event) (c : Catalog)
    → first.id ≢ ""
    → second.id ≡ first.id
    → observe_event later second (observe_event now first c).0
      ≡ ((observe_event now first c).0, false)
unfolding observe_event member
observe_event_again now later first second c set same =
    ground (arith, eq_iff first.id "", eq_iff second.id "", eq_refl first.id)
