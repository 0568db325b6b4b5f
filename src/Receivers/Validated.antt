-- ===== src/Receivers/Validated.antt =====
-- The receivers of the OPC UA gateway and of the jump host (internal/ingest) against the validation of
-- internal/normalizer/validator.go.
use dmz_collector.Base.{String, true, List, ◌≡◌, ◌≢◌, All, if◌then◌else◌, Map, some}
use dmz_collector.Value.{Value}
use dmz_collector.Event.{Platform, Event}
use dmz_collector.Disk.{Codec}
use dmz_collector.Normalizer.{validate_and_normalize, ok, err, invalid_timestamp}
use dmz_collector.Receivers.{Reading, read}
use dmz_collector.Receivers.OpcuaDmz.Many.{normalize_events_many, normalize_events_many_validated}
use dmz_collector.Receivers.Jumphost.Ssh.{Pattern}
use dmz_collector.Receivers.Jumphost.Many.{
  normalize_jumphost_events_many, normalize_jumphost_events_many_validated,
}

-- A receiver whose events are built by one function from decoded records.
pub data Endpoint : Type 0 where
  opcua_dmz jumphost : Endpoint

module _ (submatch : Pattern → String → List String) (p : Platform) (c : Codec) (now : String) where
  -- What an endpoint reads a body as.
  abbrev pub many_at : Endpoint → String → Reading (List Event)
  many_at opcua_dmz = normalize_events_many p c now
  many_at jumphost = normalize_jumphost_events_many submatch p c now

  -- At a clock reading that is a time, every event that a body of the gateway or of the jump host is
  -- read as is accepted as it is by validation at any later reading if the timestamp it took is a
  -- time, and else refused for that, whatever the regular expressions match, provided that decoding
  -- the text that an object was written as does not fail.
  pub many_at-validated :
      (later : String)
      → ((m : Map Value)
          → (fields : Map Value) × (p.unmarshal_object (c.object_text m) ≡ some fields))
      → now ≢ ""
      → p.is_time now ≡ true
      → (endpoint : Endpoint) (body : String) (es : List Event) → many_at endpoint body ≡ read es
      → All
          (λ e.
            validate_and_normalize p later e
            ≡ (if p.is_time e.timestamp then ok e else err invalid_timestamp))
          es
  many_at-validated later rereads set clock opcua_dmz =
      normalize_events_many_validated p c now later rereads set clock
  many_at-validated later rereads set clock jumphost =
      normalize_jumphost_events_many_validated submatch p c now later rereads set clock
