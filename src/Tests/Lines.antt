-- ===== src/Tests/Lines.antt =====
-- What the theorems on the lines of syslog, on the jump host and on the rounds of the worker say of the
-- collector in miniature.
use dmz_collector.Base.{
  ◌⊎◌, String, false, [], ◌∷◌, List, none, some, Map, ◌≡◌, ◌≤◌, ◌+◌, refl, arith, All,
  if◌then◌else◌, ◌==◌, eq_iff,
}
use dmz_collector.Text.{trim_space, to_lower, contains, join_blank}
use dmz_collector.Value.{Value, str}
use dmz_collector.Event.{Platform, Event}
use dmz_collector.Normalizer.{validate_and_normalize, ok, err, invalid_timestamp}
use dmz_collector.Receivers.{read}
use dmz_collector.Receivers.Json.{unwrapped}
use dmz_collector.Receivers.Bodies.{read_body}
use dmz_collector.Receivers.Jumphost.Words.{looks_like_secret, is_sensitive_key}
use dmz_collector.Receivers.Mask.{clean_map}
use dmz_collector.Receivers.Jumphost.Ssh.{Pattern, closed_preauth}
use dmz_collector.Receivers.Jumphost.{normalize_event, event_of}
use dmz_collector.Receivers.Jumphost.Many.{normalize_jumphost_events_many}
use dmz_collector.Receivers.Validated.{jumphost, many_at-validated}
use dmz_collector.Receivers.Jumphost.Kept.{IsClean, picked}
use dmz_collector.Receivers.Jumphost.Clean.{normalize_event_clean}
use dmz_collector.Receivers.Syslog.{
  SyslogLib, parse_syslog_line, is_jumphost_syslog, normalize_syslog_line,
}
use dmz_collector.App.{App, ingest_one, is_forwarding_enabled}
use dmz_collector.App.Batch.{accepted_of}
use dmz_collector.App.Syslog.{syslog_line_refused}
use dmz_collector.App.Forward.{Worker}
use dmz_collector.App.Flight.{occurrences, waiting}
use dmz_collector.App.Progress.{rounds, rounds_lem}
use dmz_collector.Forwarder.{Net, syslog_send}
use dmz_collector.Tests.{platform, codec, noon, evening, env, app, alarm, notice}

-- A pattern of sshd that picks an address and a port out of a line.
submatch : Pattern → String → List String
submatch closed_preauth line = line ∷ "10.0.0.9" ∷ "4242" ∷ []
submatch _ line = []

abbrev login_record : Map Value
login_record =
    ("message", str "Connection closed by 10.0.0.9 port 4242 [preauth]") ∷ ("token", str "x") ∷ []

abbrev host : Platform
host = record platform { unmarshal_object = λ s. if s == "{}" then some login_record else none }

abbrev login_event : Event
login_event = event_of submatch host codec noon login_record

read_login : normalize_jumphost_events_many submatch host codec noon " {}" ≡ read (login_event ∷ [])
unfolding normalize_jumphost_events_many read_body normalize_event trim_space unwrapped
read_login = refl

many_at-validated_example :
    All
      (λ e.
        validate_and_normalize host evening e
        ≡ (if host.is_time e.timestamp then ok e else err invalid_timestamp))
      (login_event ∷ [])
many_at-validated_example =
    many_at-validated submatch host codec noon evening (λ m. (login_record, refl))
      (ground (arith, eq_iff noon "")) refl jumphost " {}" (login_event ∷ []) read_login

normalize_event_clean_example :
    (e : Event) × (normalize_event submatch host codec noon "{}" ≡ some e)
    × ((safe : Map Value) × (e.raw ≡ codec.object_text safe) × IsClean safe)
    × ((clean_map is_sensitive_key looks_like_secret (picked submatch host login_record) ≡ false)
        ⊎ (IsClean e.tags × IsClean e.extra_fields))
normalize_event_clean_example =
    normalize_event_clean submatch host codec noon "{}" login_record refl

abbrev lib : SyslogLib
lib = record {
  submatch = λ form line. [];
  without_pri = λ line. line;
  atoi = λ s. none;
  host_of = λ s. some "192.168.10.1";
}

not_jumphost :
    is_jumphost_syslog (parse_syslog_line lib platform "fw: DROP" "192.168.10.1:514") ≡ false
unfolding is_jumphost_syslog parse_syslog_line join_blank contains to_lower
not_jumphost = refl

syslog_line_refused_example :
    let r =
      ingest_one env
        (normalize_syslog_line submatch lib platform codec evening "fw: DROP" "192.168.10.1:514")
        app in
    (accepted_of r.1 ≡ 0)
    × (r.0.store ≡ app.store)
    × (r.0.spool ≡ app.spool)
    × (r.0.stats ≡ app.stats)
syslog_line_refused_example =
    syslog_line_refused submatch lib env "fw: DROP" "192.168.10.1:514" app not_jumphost
      (ground (arith, eq_iff "fw: DROP" "")) refl

-- A receiver that takes all.
abbrev takes_all : Net
takes_all = λ host port protocol e. none

abbrev holding : Worker
holding = record { pending = notice ∷ alarm ∷ []; attempt = 3; sent = [] }

abbrev busy : App
busy = record app { queue = record app.queue { ch = alarm ∷ [] } }

rounds_lem_example :
    occurrences "alarm-1" holding.sent + occurrences "alarm-1" (waiting busy holding)
    ≤ occurrences "alarm-1" (rounds takes_all 50 (env ∷ env ∷ []) (busy, holding)).1.sent
unfolding is_forwarding_enabled syslog_send
rounds_lem_example =
    rounds_lem takes_all 50 env (env ∷ []) busy holding refl (λ e. refl) (omega arith) "alarm-1"
