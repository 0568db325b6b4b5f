-- ===== src/Receivers/Ids.antt =====
-- internal/ingest/ids_receiver.go: an alert of the IDS. What json.Unmarshal into the struct gives is
-- the field `unmarshal_alert`, and fmt.Sprintf of an int is `sprint_int`.
use dmz_collector.Base.{String, [], ◌∷◌, Option, if◌then◌else◌, ◌==◌, eqb, leb}
use mathlib.Core.Option
use dmz_collector.Text.{trim_space}
use dmz_collector.Value.{str}
use dmz_collector.Event.{Platform, Event, ensure_defaults}
use dmz_collector.Forwarder.{ℤ, pos, negsuc}

-- idsAlert
pub record IdsAlert : Type 0 where
  pub timestamp : String
  pub event_type : String
  pub src_ip : String
  pub dest_ip : String
  pub signature : String
  pub severity : ℤ
  pub category : String

pub record AlertLib : Type 0 where
  pub unmarshal_alert : String → Option IdsAlert
  pub sprint_int : ℤ → String

-- The severity of the event.
unfoldable pub severity_of : ℤ → String
severity_of (negsuc n) = "critical"
severity_of (pos n) = if leb n 1 then "critical" else if eqb n 2 then "error" else "warning"

module _ (lib : AlertLib) (p : Platform) (now : String) where
  -- NormalizeIDSAlert past json.Unmarshal.
  unfoldable pub event_of_alert : String → IdsAlert → Event
  unfolding severity_of
  event_of_alert raw alert =
      let signature = trim_space alert.signature in
      let e : Event = record {
        id = "";
        timestamp = if alert.timestamp == "" then now else alert.timestamp;
        received_at = now;
        zone = "DMZ";
        source = "";
        source_type = "ids";
        asset_name = "suricata";
        asset_ip = alert.src_ip;
        severity = severity_of alert.severity;
        protocol = "http";
        event_category = "security";
        message = if signature == "" then "ids alert" else signature;
        raw = raw;
        tags =
            ("event_type", str alert.event_type)
            ∷ ("src_ip", str alert.src_ip)
            ∷ ("dest_ip", str alert.dest_ip)
            ∷ ("signature", str alert.signature)
            ∷ ("alert_category", str alert.category)
            ∷ ("alert_severity", str (lib.sprint_int alert.severity))
            ∷ [];
        extra_fields = [];
        original_raw = "";
      } in
      record (ensure_defaults p now e) { original_raw = raw }

  -- NormalizeIDSAlert: `none` is an error of encoding/json.
  unfoldable pub normalize_ids_alert : String → Option Event
  unfolding event_of_alert
  normalize_ids_alert raw = Option.map (event_of_alert raw) (lib.unmarshal_alert raw)
