-- ===== src/Tests.antt =====
-- A collector in miniature for the tests: libraries by concrete functions, one event, one state.
pub mod Events
pub mod Disks
pub mod Parts
pub mod Collector
pub mod Requests
pub mod Handlers
pub mod Lines
use dmz_collector.Base.{
  ℕ, String, Bool, true, false, ◌||◌, List, [], ◌∷◌, Option, none, some, if◌then◌else◌, ◌==◌, Map,
}
use dmz_collector.Value.{Value, str, bool}
use dmz_collector.Event.{Platform, Clock, Event, to_map}
use dmz_collector.Disk.{Codec}
use dmz_collector.Config.{ConfigLib, ForwardingConfig, ForwardingStore, missing}
use dmz_collector.Catalog.{new_catalog}
use dmz_collector.Buffer.Queue.{new_queue}
use dmz_collector.Stats.{new_stats}
use dmz_collector.Hub.{new_stream_hub}
use dmz_collector.Forwarder.{Net}
use dmz_collector.App.{App, Env}
use dmz_collector.App.Start.{Found}

abbrev pub noon : String
noon = "2024-01-01T12:00:00Z"

abbrev pub evening : String
evening = "2024-01-01T18:00:00Z"

abbrev pub platform : Platform
platform = record {
  unmarshal_object = λ s. none;
  unmarshal_array = λ s. none;
  unmarshal_string = λ s. none;
  sprint = λ v. "value";
  itoa = λ n. "n";
  whole = λ n. none;
  digest = λ s. s;
  is_time = λ s. s == noon || s == evening;
  minute_of = λ s. if s == noon then some "2024-01-01T12:00Z" else none;
}

abbrev pub clock : Clock
clock = record { text = evening; second = 64_800; minute = "2024-01-01T18:00Z" }

-- An event in parsed form, of high value by its category.
abbrev pub alarm : Event
alarm = record {
  id = "alarm-1";
  timestamp = noon;
  received_at = noon;
  zone = "OT";
  source = "plc";
  source_type = "plc";
  asset_name = "pump";
  asset_ip = "10.0.0.5";
  severity = "high";
  protocol = "syslog";
  event_category = "modbus_write";
  message = "coil forced";
  raw = "";
  tags = ("site", str "north") ∷ [];
  extra_fields = ("unit", str "4") ∷ [];
  original_raw = "{}";
}

abbrev pub notice : Event
notice = record alarm {
  id = "notice-1";
  severity = "info";
  event_category = "status";
  message = "all well";
}

-- Two lines are known: one that holds no event, and one that holds the alarm.
abbrev pub codec : Codec
codec = record {
  is_json = λ s. s == "{}";
  object_text = λ m. "{}";
  value_text = λ v. "";
  spool_text = λ offset m. "second";
  spool_read = λ l.
      if l == "first"
      then some (0, none)
      else (if l == "second" then some (6, some ("{}", to_map alarm)) else none);
  store_text = λ m raw. "second";
  store_read = λ l.
      if l == "first"
      then some (none, "{}")
      else (if l == "second" then some (some ("{}", to_map alarm), "{}") else none);
}

-- The only texts of configurations are that of the default one and the empty object's.
abbrev pub config_lib : ConfigLib
config_lib = record {
  marshal_indent = λ m. "{}";
  unmarshal_object = λ s. some [];
  itoa = λ n. "514";
  atoi = λ s. some 514;
}

abbrev pub env : Env
env = record {
  config = config_lib;
  platform = platform;
  codec = codec;
  clock = clock;
  store_writable = true;
  spool_writable = true;
  spool_readable = true;
  checkpoint_writable = true;
}

abbrev pub forwarding : ForwardingConfig
forwarding = record {
  splunk_enabled = false;
  splunk_hec_url = "";
  splunk_hec_token = "";
  splunk_index = "ot_security";
  splunk_source = "labshock_dmz_collector";
  splunk_verify_tls = true;
  syslog_forward_enabled = true;
  syslog_forward_host = "siem";
  syslog_forward_port = 514;
  syslog_forward_protocol = "udp";
  paused = false;
}

abbrev pub found : Found
found = record {
  store = none;
  store_readable = true;
  spool = some ("first" ∷ []);
  checkpoint = none;
  fwd = record { file = missing; cfg = forwarding };
  ot_url = "http://ot/";
  splunk_enabled = true;
  default_sources = [];
}

abbrev pub app : App
app = record {
  store = none;
  spool = record { file = some ("first" ∷ []); checkpoint = none };
  queue = new_queue 4096;
  stats = new_stats;
  hub = new_stream_hub;
  fwd = record { file = missing; cfg = forwarding };
  catalog = new_catalog noon "http://ot";
  seen_ids = [];
  inflight = [];
  offset_by_id = ("alarm-1", 6) ∷ [];
  splunk_enabled = true;
  dispatched = [];
  splunk_success_count = 0;
  splunk_failed_count = 0;
  splunk_last_success_at = "";
  splunk_last_failure_at = "";
  splunk_last_error = "";
  splunk_last_event_id = "";
  last_hec_error = "";
  failed_batches = 0;
}

-- A receiver that takes all but notices.
abbrev pub net : Net
net = λ host port protocol e. if e.id == "notice-1" then some "refused" else none
