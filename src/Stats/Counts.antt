-- ===== src/Stats/Counts.antt =====
-- The counters of internal/stats/stats.go agree with one another.
use dmz_collector.Base.{
  ℕ, ◌+◌, ◌≤◌, String, List, [], ◌∷◌, Map, lookup, insert, ◌≡◌, refl, arith, length,
}
use dmz_collector.SourceUtil.{normalize_source_type}
use dmz_collector.Event.{Platform, Clock, Event}
use dmz_collector.Stats.{Stats, new_stats, count_of, bump, bump_rate, add, sourcetype_of, bucket}

unfoldable pub sum : Map ℕ → ℕ
sum [] = 0
sum ((k, n) ∷ m) = n + sum m

pub sum-bump : (k : String) (m : Map ℕ) → sum (bump k m) ≡ sum m + 1
unfolding sum bump count_of lookup insert
sum-bump k [] = refl
sum-bump k ((j, n) ∷ m) = ground (arith, sum-bump k m)

-- Every breakdown of the events sums up to the number received, and so do the special counts at
-- most; the events of the current and the last second are among them.
pub record IsConsistent (s : Stats) : Type 0 where
  pub source : sum s.by_source ≡ s.total_received
  pub severity : sum s.by_severity ≡ s.total_received
  pub category : sum s.by_category ≡ s.total_received
  pub sourcetype : sum s.by_sourcetype ≡ s.total_received
  pub asset : sum s.by_asset ≡ s.total_received
  pub minutes : sum s.timeline ≡ s.total_received
  pub security : s.security_count ≤ s.total_received
  pub valued : s.high_value ≤ s.total_received
  pub rate : s.rate_count + s.rate_eps ≤ s.total_received

new_stats-IsConsistent : IsConsistent new_stats
unfolding new_stats sum
new_stats-IsConsistent = ground arith

-- An event keeps the breakdowns in step, whatever it carries.
add-IsConsistent :
    (p : Platform) (t : Clock) (e : Event) (s : Stats) → IsConsistent s → IsConsistent (add p t e s)
unfolding add bump_rate
add-IsConsistent p t e s v = ground (
  arith,
  sum-bump (normalize_source_type e.source_type) s.by_source,
  sum-bump e.severity s.by_severity,
  sum-bump e.event_category s.by_category,
  sum-bump (sourcetype_of (record e { source_type = normalize_source_type e.source_type }))
      s.by_sourcetype,
  sum-bump e.asset_name s.by_asset,
  sum-bump (bucket p t e.received_at) s.timeline,
)

pub add-total :
    (p : Platform) (t : Clock) (e : Event) (s : Stats)
    → (add p t e s).total_received ≡ s.total_received + 1
unfolding add bump_rate
add-total p t e s = ground arith

-- Adding events one after the other.
pub add_all : Platform → List (Clock × Event) → Stats → Stats
add_all p [] s = s
add_all p ((t, e) ∷ es) s = add_all p es (add p t e s)

add_all-from :
    (p : Platform) (es : List (Clock × Event)) (s : Stats)
    → IsConsistent s
    → IsConsistent (add_all p es s)
      × ((add_all p es s).total_received ≡ s.total_received + length es)
unfolding add_all
add_all-from p [] s v = (v, omega arith)
add_all-from p ((t, e) ∷ es) s v =
    let (w, total) = add_all-from p es (add p t e s) (add-IsConsistent p t e s v) in
    (w, omega (arith, total, add-total p t e s))

-- After any events from a fresh start, the total is their number, and the breakdowns by source
-- type, severity, category, sourcetype, asset and minute each sum up to it; the security and the
-- high-value events, and those of the current and the last counted second, are at most so many.
pub add_all-IsConsistent :
    (p : Platform) (es : List (Clock × Event))
    → IsConsistent (add_all p es new_stats) × ((add_all p es new_stats).total_received ≡ length es)
unfolding new_stats
add_all-IsConsistent p es =
    let (v, total) = add_all-from p es new_stats new_stats-IsConsistent in (v, omega arith)
