-- ===== src/Receivers/OpcuaDmz/Many.antt =====
-- NormalizeOPCUADMZEventsMany of internal/ingest/opcua_dmz_events.go: a body of the OPC UA gateway.
use dmz_collector.Base.{
  String, true, List, [], ◌∷◌, none, some, Map, ◌≡◌, ◌≢◌, arith, if◌then◌else◌, case_both, All,
}
use dmz_collector.Event.{Platform, Event}
use dmz_collector.Normalizer.{validate_and_normalize, ok, err, invalid_timestamp}
use dmz_collector.Receivers.Settled.{JudgedByTime}
use dmz_collector.Disk.{Codec, zero_event}
use dmz_collector.Receivers.{Reading, read}
use dmz_collector.Receivers.Bodies.{read_body, read_body-All}
use dmz_collector.Receivers.OpcuaDmz.{normalize_event, normalize_text_line, text_message}
use dmz_collector.Value.{Value, str, obj, of_entries}
use dmz_collector.Receivers.OpcuaDmz.Normal.{normalize_event-validated}

module _ (p : Platform) (c : Codec) (now : String) where
  -- NormalizeOPCUADMZEventsMany, at one reading of the clock for the whole body.
  unfoldable pub normalize_events_many : String → Reading (List Event)
  unfolding read_body
  normalize_events_many = read_body p (normalize_event p c now) (normalize_text_line p c now)

normalize_event-some :
    (p : Platform) (c : Codec) (now raw : String) (fields : Map Value)
    → p.unmarshal_object raw ≡ some fields
    → normalize_event p c now raw ≢ none
unfolding normalize_event
normalize_event-some p c now raw fields decoded failed = ground arith

module _ (p : Platform) (c : Codec) (now later : String)
    (rereads : (m : Map Value)
      → (fields : Map Value) × (p.unmarshal_object (c.object_text m) ≡ some fields))
    (set : now ≢ "") (clock : p.is_time now ≡ true) where
  normalize_event-judged :
      (raw : String) (e : Event) → normalize_event p c now raw ≡ some e → JudgedByTime p later e
  normalize_event-judged raw e made = normalize_event-validated p c now later raw e set clock made

  normalize_text_line-judged :
      (line : String) → JudgedByTime p later (normalize_text_line p c now line)
  unfolding normalize_text_line
  normalize_text_line-judged line =
      let m =
        ("message", str (text_message line))
        ∷ ("raw", obj (of_entries (("detail", str line) ∷ [])))
        ∷ [] in
      case_both (JudgedByTime p later) (normalize_event p c now (c.object_text m)) zero_event
        (λ e. e)
        (λ failed.
          absurd
            (normalize_event-some p c now (c.object_text m) (rereads m).0 (rereads m).1 failed))
        (normalize_event-judged (c.object_text m))

  -- At a clock reading that is a time, every event that a body of the gateway is read as is accepted
  -- as it is by validation at any later reading if the timestamp it took is a time, and else refused
  -- for that, provided that decoding the text that an object was written as does not fail: all
  -- defaults are set, the category and the severity are of the collector's own words, and the source
  -- type and its tag are left alone.
  pub normalize_events_many_validated :
      (body : String) (es : List Event)
      → normalize_events_many p c now body ≡ read es
      → All
          (λ e.
            validate_and_normalize p later e
            ≡ (if p.is_time e.timestamp then ok e else err invalid_timestamp))
          es
  unfolding normalize_events_many
  normalize_events_many_validated =
      read_body-All p (normalize_event p c now) (normalize_text_line p c now) (JudgedByTime p later)
        normalize_event-judged normalize_text_line-judged
