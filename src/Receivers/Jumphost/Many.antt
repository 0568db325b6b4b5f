-- ===== src/Receivers/Jumphost/Many.antt =====
-- NormalizeJumphostEventsMany of internal/ingest/jumphost_events.go: a body of the jump host.
use dmz_collector.Base.{
  String, true, List, none, some, Map, ◌≡◌, ◌≢◌, arith, if◌then◌else◌, case_both, All,
}
use dmz_collector.Event.{Platform, Event}
use dmz_collector.Normalizer.{validate_and_normalize, ok, err, invalid_timestamp}
use dmz_collector.Disk.{Codec, zero_event}
use dmz_collector.Value.{Value}
use dmz_collector.Receivers.{Reading, read}
use dmz_collector.Receivers.Settled.{JudgedByTime}
use dmz_collector.Receivers.Bodies.{read_body, read_body-All}
use dmz_collector.Receivers.Jumphost.Ssh.{Pattern}
use dmz_collector.Receivers.Jumphost.{
  normalize_event, event_of_payload, line_payload, normalize_text_line,
}
use dmz_collector.Receivers.Jumphost.Normal.{normalize_event-judged}

module _ (submatch : Pattern → String → List String) (p : Platform) (c : Codec) (now : String) where
  -- NormalizeJumphostEventsMany, at one reading of the clock for the whole body.
  unfoldable pub normalize_jumphost_events_many : String → Reading (List Event)
  unfolding read_body
  normalize_jumphost_events_many =
      read_body p (normalize_event submatch p c now) (normalize_text_line submatch p c now)

  normalize_event-some :
      (raw : String) (fields : Map Value)
      → p.unmarshal_object raw ≡ some fields
      → normalize_event submatch p c now raw ≢ none
  unfolding normalize_event
  normalize_event-some raw fields decoded failed = ground arith

  module _ (later : String)
      (rereads : (m : Map Value)
        → (fields : Map Value) × (p.unmarshal_object (c.object_text m) ≡ some fields))
      (set : now ≢ "") (clock : p.is_time now ≡ true) where
    pub event_of_payload-judged :
        (m : Map Value) → JudgedByTime p later (event_of_payload submatch p c now m)
    unfolding event_of_payload
    event_of_payload-judged m =
        case_both (JudgedByTime p later) (normalize_event submatch p c now (c.object_text m))
          zero_event (λ e. e)
          (λ failed.
            absurd (normalize_event-some (c.object_text m) (rereads m).0 (rereads m).1 failed))
          (λ e. normalize_event-judged submatch p c now later (c.object_text m) e set clock)

    text_line-judged :
        (line : String) → JudgedByTime p later (normalize_text_line submatch p c now line)
    unfolding normalize_text_line
    text_line-judged line = event_of_payload-judged (line_payload submatch p c now line)

    -- At a clock reading that is a time, every event that a body of the jump host is read as is
    -- accepted as it is by validation at any later reading if the timestamp it took is a time, and
    -- else refused for that, whatever the regular expressions match, provided that decoding the text
    -- that an object was written as does not fail.
    pub normalize_jumphost_events_many_validated :
        (body : String) (es : List Event)
        → normalize_jumphost_events_many body ≡ read es
        → All
            (λ e.
              validate_and_normalize p later e
              ≡ (if p.is_time e.timestamp then ok e else err invalid_timestamp))
            es
    unfolding normalize_jumphost_events_many
    normalize_jumphost_events_many_validated =
        read_body-All p (normalize_event submatch p c now) (normalize_text_line submatch p c now)
          (JudgedByTime p later)
          (λ raw e. normalize_event-judged submatch p c now later raw e set clock) text_line-judged
