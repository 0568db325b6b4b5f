-- ===== src/Tests/Parts.antt =====
-- What the theorems on the statistics, the catalogue, the hub and the waits say of small ones.
use dmz_collector.Base.{ℕ, ◌+◌, ◌*◌, ◌≤◌, min, true, [], ◌∷◌, ◌≡◌, refl, arith}
use dmz_collector.Value.{str, obj, Fields}
use dmz_collector.Value.{of_entries}
use dmz_collector.Stats.{new_stats}
use dmz_collector.Stats.Counts.{IsConsistent, add_all, add_all-IsConsistent}
use dmz_collector.Catalog.{OtConfiguredSource, new_catalog}
use dmz_collector.Catalog.Redact.{redact_fields}
use dmz_collector.Catalog.Redaction.{AreClean, redact_fields-AreClean}
use dmz_collector.Catalog.Observation.{merges, observes, run, AllCounted, run-AllCounted}
use dmz_collector.Hub.{new_stream_hub}
use dmz_collector.Hub.Streams.{joins, leaves, publishes, act_all, IsSound, act_all-IsSound}
use dmz_collector.Forwarder.{backoff, pos, negsuc}
use dmz_collector.Forwarder.Retry.{backoff_bounds, last_attempt}
use dmz_collector.Tests.{platform, clock, noon, evening, alarm, notice}

add_all-IsConsistent_example :
    IsConsistent (add_all platform ((clock, alarm) ∷ (clock, notice) ∷ []) new_stats)
    × ((add_all platform ((clock, alarm) ∷ (clock, notice) ∷ []) new_stats).total_received ≡ 2)
add_all-IsConsistent_example = add_all-IsConsistent platform ((clock, alarm) ∷ (clock, notice) ∷ [])

abbrev secrets : Fields
secrets =
    of_entries
      (("password", str "hunter2") ∷ ("site", obj (of_entries (("token", str "x") ∷ []))) ∷ [])

redact_fields-AreClean_example : AreClean (redact_fields secrets)
redact_fields-AreClean_example = redact_fields-AreClean secrets

abbrev row : OtConfiguredSource
row = record {
  id = "plc-1";
  name = "Pump PLC";
  type = "plc";
  ip = "10.0.0.5";
  protocol = "modbus";
  impact = "high";
  zone = "OT";
  enabled = true;
  forward_enabled = true;
  notes = "";
}

run-AllCounted_example :
    AllCounted
      (run
        (observes evening alarm ∷ merges evening (row ∷ []) ∷ [])
        (new_catalog noon "http://ot")).records
run-AllCounted_example =
    run-AllCounted noon "http://ot" (observes evening alarm ∷ merges evening (row ∷ []) ∷ [])

act_all-IsSound_example :
    IsSound (act_all (joins ∷ publishes alarm ∷ joins ∷ leaves 0 ∷ []) new_stream_hub)
act_all-IsSound_example = act_all-IsSound (joins ∷ publishes alarm ∷ joins ∷ leaves 0 ∷ [])

backoff_bounds_example :
    (d : ℕ) × (backoff 5 ≡ pos d)
    × (200_000_000 ≤ d)
    × (d ≤ 30_000_000_000)
    × (d ≡ min (5 * 5 * 200_000_000) 30_000_000_000)
backoff_bounds_example = backoff_bounds 5 (omega arith) (omega arith)

-- At attempt 214749 the product does not fit an int64: the wait is negative, that is, none.
overflowed : (d : ℕ) × (backoff (last_attempt + 1) ≡ negsuc d)
unfolding backoff
overflowed = (_, refl)
