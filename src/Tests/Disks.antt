-- ===== src/Tests/Disks.antt =====
-- What the theorems on the queue, the spool, the store and the configuration file say of small ones.
use Prim.Native.String.{◌++◌ as append_text}
use dmz_collector.Base.{
  ℕ, zero, suc, min, max, String, true, List, [], ◌∷◌, ◌++◌, none, some, ◌≡◌, ◌≢◌, ◌↔◌, refl, arith,
  All, keep, member, length, eq_iff,
}
use dmz_collector.Event.{Event, to_map, parse_object}
use dmz_collector.Disk.{Codec, size_of, fits, read_event}
use dmz_collector.Buffer.Queue.{Queue, pop_batch, new_queue}
use dmz_collector.Buffer.Queue.Laws.{pop_batch_lem}
use dmz_collector.Buffer.Spool.{Spool, SpoolRecord, load_pending, last_forwarded}
use dmz_collector.Buffer.Spool
use dmz_collector.Buffer.Spool.Pending.{
  Op, appends, marks, run, first_never_pending, long_line_blocks, load_pending-append,
}
use dmz_collector.Storage.{
  EventQuery, read_filtered, limit_of, matches, read_all, load_id_set, read_by_id,
}
use dmz_collector.Storage
use dmz_collector.Storage.Query.{last, read_filtered_lem}
use dmz_collector.Storage.Lookup.{load_id_set-read_by_id, read_by_id-append}
use dmz_collector.Config.{
  replace, load_or_init, missing, ForwardingStore, ForwardingConfig, ConfigLib, written, completed,
  encoded,
}
use dmz_collector.Config.Store.{load_or_init-replace}
use dmz_collector.Tests
use dmz_collector.Tests.{platform, codec, noon, alarm, notice, forwarding}
use dmz_collector.Tests.Events.{alarm-IsParsed}

abbrev two_events : Queue
two_events = record (new_queue 100) { ch = alarm ∷ notice ∷ [] }

pop_batch_lem_example :
    ((pop_batch 1 two_events).0 ++ (pop_batch 1 two_events).1.ch ≡ alarm ∷ notice ∷ [])
    × (length (pop_batch 1 two_events).0 ≡ min (max 1 1) (length two_events.ch))
    × ((pop_batch 1 two_events).1.stats ≡ two_events.stats)
    × ((pop_batch 1 two_events).1.size ≡ two_events.size)
pop_batch_lem_example = pop_batch_lem 1 two_events

abbrev one_line : List String
one_line = "first" ∷ []

abbrev two_lines : List String
two_lines = "first" ∷ "second" ∷ []

abbrev spool_of : List String → Spool
spool_of ls = record { file = some ls; checkpoint = none }

abbrev second_record : SpoolRecord
second_record = record { offset = 6; event = parse_object platform noon "{}" (to_map alarm) }

-- Of the two records of the spool, the one at offset 0 is not pending.
one_pending : load_pending codec platform noon true (spool_of two_lines) ≡ some (second_record ∷ [])
unfolding load_pending fits parse_object read_event
one_pending = refl

first_never_pending_example : All (λ r. r.offset ≢ 0) (second_record ∷ [])
first_never_pending_example =
    first_never_pending codec platform noon true (spool_of two_lines) (second_record ∷ [])
      one_pending

abbrev doubled : ℕ → String → String
doubled zero s = s
doubled (suc n) s = doubled n (append_text s s)

abbrev wordy : Codec
wordy = record codec { spool_text = λ offset m. doubled 16 "x" }

-- Once the wordy line is there, the checkpoint is marked and another event appended.
abbrev afterwards : List Op
afterwards = marks true 6 ∷ appends true notice ∷ []

long_line_blocks_example :
    ((Spool.append wordy true (spool_of one_line) alarm).0 ≡ some (size_of one_line))
    × (load_pending wordy platform noon true
          (run wordy afterwards (Spool.append wordy true (spool_of one_line) alarm).1)
        ≡ none)
unfolding fits
long_line_blocks_example =
    long_line_blocks wordy platform noon (spool_of one_line) alarm afterwards true refl

-- The first record, at offset 0, is not pending.
none_pending : load_pending codec platform noon true (spool_of one_line) ≡ some []
unfolding load_pending fits
none_pending = refl

load_pending-append_example :
    (offset : ℕ) × ((Spool.append codec true (spool_of one_line) alarm).0 ≡ some offset)
    × (load_pending codec platform noon true (Spool.append codec true (spool_of one_line) alarm).1
        ≡ some (record { offset = offset; event = record alarm { original_raw = "{}" } } ∷ []))
unfolding size_of fits
load_pending-append_example =
    load_pending-append codec platform noon (spool_of one_line) alarm one_line [] "{}" refl
      alarm-IsParsed none_pending refl refl (omega arith)

abbrev query : EventQuery
query = record {
  limit = 0;
  source_type = "plc";
  severity = "";
  category = "";
  asset = "";
  search = "COIL";
}

read_filtered_lem_example :
    read_filtered codec platform noon true (some two_lines) query
    ≡ some (
        last
          (limit_of query)
          (keep (λ e. matches codec e query) (read_all codec platform noon two_lines)))
unfolding fits
read_filtered_lem_example = read_filtered_lem codec platform noon (some two_lines) query refl

load_id_set-read_by_id_example :
    (ids : List String) × (load_id_set codec platform noon true (some two_lines) ≡ some ids)
    × ((member "alarm-1" ids ≡ true) ↔ (
        (e : Event) × (read_by_id codec platform noon true (some two_lines) "alarm-1"
          ≡ some (some e))))
unfolding fits
load_id_set-read_by_id_example =
    load_id_set-read_by_id codec platform noon (some two_lines) "alarm-1" refl
      (ground (arith, eq_iff "alarm-1" ""))

read_by_id-append_example :
    read_by_id codec platform noon true
      (Storage.append codec true (some one_line) alarm).1
      "alarm-1"
    ≡ some (some (record alarm { original_raw = "{}" }))
unfolding fits read_all Storage.read_line read_event
read_by_id-append_example =
    read_by_id-append codec platform noon (some one_line) alarm "{}" "{}" alarm-IsParsed
      (ground (arith, eq_iff "{}" "")) refl refl refl refl refl

abbrev partial_config : ForwardingStore
partial_config = record { file = missing; cfg = forwarding }

abbrev given : ForwardingConfig
given = record forwarding { splunk_index = ""; syslog_forward_port = 0 }

-- A library whose only written text is that of the given configuration.
abbrev lib : ConfigLib
lib = record Tests.config_lib {
  unmarshal_object = λ s. some (encoded Tests.config_lib (completed given));
}

load_or_init-replace_example :
    let t = (replace lib written given partial_config).1 in
    (load_or_init lib written (record t { cfg = forwarding }) ≡ some t)
    × (t.cfg.splunk_index ≢ "")
    × (t.cfg.splunk_source ≢ "")
    × (t.cfg.syslog_forward_protocol ≢ "")
    × (t.cfg.syslog_forward_port ≢ 0)
    × ((replace lib written t.cfg t).1 ≡ t)
unfolding completed encoded
load_or_init-replace_example =
    load_or_init-replace lib given forwarding partial_config (ground (arith, eq_iff "{}" "")) refl
      refl
