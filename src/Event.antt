-- ===== src/Event.antt =====
-- internal/event/model.go: the event, its defaults, and its JSON object.
-- The clock is an argument `now`, the time that `time.Now` gives in RFC 3339 form. What Go's
-- libraries compute on whole texts is the record `Platform`.
pub mod Defaults
pub mod RoundTrip
pub mod Splunk
use Prim.Native.String.{◌++◌}
use dmz_collector.Base.{
  ℕ, String, Bool, List, [], ◌∷◌, Option, none, some, Map, lookup, insert, member, keep,
  if◌then◌else◌, ◌==◌, not,
}
use dmz_collector.Text.{to_lower}
use dmz_collector.Value.{Value, null, str, obj, entries, of_entries}
use dmz_collector.SourceUtil.{normalize_source_type}

pub record Platform : Type 0 where
  -- encoding/json: a text read as one object, and as an array of texts
  pub unmarshal_object : String → Option (Map Value)
  pub unmarshal_array : String → Option (List String)
  -- a text read as one text
  pub unmarshal_string : String → Option String
  -- fmt.Sprintf("%v", v)
  pub sprint : Value → String
  -- strconv.Itoa
  pub itoa : ℕ → String
  -- a number's decimal digits, if it is whole and fits an int64
  pub whole : String → Option String
  -- the first eight bytes of the SHA-1 sum, in hexadecimal
  pub digest : String → String
  -- time.Parse by RFC3339Nano or by RFC3339 accepts the text
  pub is_time : String → Bool
  -- bucket: the minute of an RFC 3339 time, in UTC, if the text is one
  pub minute_of : String → Option String

-- One reading of the clock: its RFC 3339 text, its Unix second, and its minute.
pub record Clock : Type 0 where
  pub text : String
  pub second : ℕ
  pub minute : String

pub record Event : Type 0 where
  pub id : String
  pub timestamp : String
  pub received_at : String
  pub zone : String
  pub source : String
  pub source_type : String
  pub asset_name : String
  pub asset_ip : String
  pub severity : String
  pub protocol : String
  pub event_category : String
  pub message : String
  pub raw : String
  -- Go's nil map is the empty map here.
  pub tags : Map Value
  pub extra_fields : Map Value
  pub original_raw : String

abbrev pub known_keys : List String
known_keys =
    "id" ∷ "timestamp" ∷ "received_at" ∷ "zone" ∷ "source" ∷ "source_type" ∷ "asset_name"
    ∷ "asset_ip" ∷ "severity" ∷ "protocol" ∷ "event_category" ∷ "message" ∷ "raw" ∷ "tags" ∷ []

-- `v` for a field that is set, `d` where it is empty.
abbrev pub or_default : String → String → String
or_default v d = if v == "" then d else v

module _ (p : Platform) where
  -- A missing key reads as nil.
  get_string : Option Value → String
  get_string none = ""
  get_string (some null) = ""
  get_string (some (str s)) = s
  get_string (some v) = p.sprint v

  unfoldable pub fingerprint : Event → String
  fingerprint e =
      "dmz-"
      ++ p.digest (
          e.timestamp
          ++ ("|"
              ++ (e.source_type
                  ++ ("|"
                      ++ (e.asset_ip
                          ++ ("|"
                              ++ (e.message ++ ("|" ++ (e.raw ++ ("|" ++ e.event_category))))))))))

  defaulted : String → Event → Event
  defaulted now e = record e {
    timestamp = or_default e.timestamp now;
    received_at = or_default e.received_at now;
    zone = or_default e.zone "OT";
    source_type = or_default e.source_type "unknown";
    source = or_default e.source "unknown";
    severity = or_default e.severity "info";
    protocol = or_default e.protocol "syslog";
    event_category = or_default e.event_category "unknown";
  }

  -- EnsureDefaults
  unfoldable pub ensure_defaults : String → Event → Event
  unfolding defaulted
  ensure_defaults now e =
      let d = defaulted now e in record d { id = or_default d.id (fingerprint d) }

  tags_of : Option Value → Map Value
  tags_of (some (obj fs)) = entries fs
  tags_of _ = []

  -- ParseOne behind `json.Unmarshal`.
  unfoldable pub parse_object : String → String → Map Value → Event
  unfolding get_string tags_of
  parse_object now raw m = ensure_defaults now (record {
    id = get "id";
    timestamp = get "timestamp";
    received_at = get "received_at";
    zone = get "zone";
    source = get "source";
    source_type = normalize_source_type (get "source_type");
    asset_name = get "asset_name";
    asset_ip = get "asset_ip";
    severity = to_lower (get "severity");
    protocol = get "protocol";
    event_category = to_lower (get "event_category");
    message = get "message";
    raw = get "raw";
    tags = tags_of (lookup "tags" m);
    extra_fields = keep (λ kv. not (member kv.0 known_keys)) m;
    original_raw = raw;
  })
    where
      get : String → String
      get k = get_string (lookup k m)

  unfoldable pub parse_one : String → String → Option Event
  parse_one now raw = elim (p.unmarshal_object raw) [
    | none ↦ none
    | some m ↦ some (parse_object now raw m)
  ]

  parse_items : String → List String → Option (List Event)
  parse_items now [] = some []
  parse_items now (item ∷ items) = elim (parse_one now item) [
    | none ↦ none
    | some e ↦ elim (parse_items now items) [ none ↦ none | some es ↦ some (e ∷ es) ]
  ]

  -- ParseMany: an array of events, or one event.
  unfoldable pub parse_many : String → String → Option (List Event)
  unfolding parse_items
  parse_many now raw = elim (p.unmarshal_array raw) [
    | some items ↦ parse_items now items
    | none ↦ elim (parse_one now raw) [ none ↦ none | some e ↦ some (e ∷ []) ]
  ]

-- The loop of ToMap over the extra fields: a key that is there already stays as it is.
unfoldable pub add_missing : Map Value → Map Value → Map Value
add_missing out [] = out
add_missing out ((k, v) ∷ extra) = elim (lookup k out) [
  | some _ ↦ add_missing out extra
  | none ↦ add_missing (insert k v out) extra
]

unfoldable pub known_fields : Event → Map Value
known_fields e =
    ("id", str e.id)
    ∷ ("timestamp", str e.timestamp)
    ∷ ("received_at", str e.received_at)
    ∷ ("zone", str e.zone)
    ∷ ("source", str e.source)
    ∷ ("source_type", str e.source_type)
    ∷ ("asset_name", str e.asset_name)
    ∷ ("asset_ip", str e.asset_ip)
    ∷ ("severity", str e.severity)
    ∷ ("protocol", str e.protocol)
    ∷ ("event_category", str e.event_category)
    ∷ ("message", str e.message)
    ∷ ("raw", str e.raw)
    ∷ ("tags", obj (of_entries e.tags))
    ∷ []

unfoldable pub to_map : Event → Map Value
unfolding add_missing known_fields
to_map e = add_missing (known_fields e) e.extra_fields
