-- ===== src/Disk.antt =====
-- The files that internal/buffer/spool.go and internal/storage/jsonl.go append lines to, and the
-- texts of their lines, which encoding/json writes and reads.
pub mod Laws
use Prim.Native.String.{len}
use dmz_collector.Base.{
  ℕ, ◌+◌, String, Bool, List, [], ◌∷◌, ◌++◌, Option, none, some, Map, ltb, all,
}
use dmz_collector.Value.{Value}
use dmz_collector.Event.{Platform, Event, parse_object}

-- encoding/json on the two record types. A reader gives the event's own text and its object, or
-- `none` for it where the line has no event.
pub record Codec : Type 0 where
  -- A text is valid JSON.
  pub is_json : String → Bool
  -- The text of an object.
  pub object_text : Map Value → String
  pub value_text : Value → String
  pub spool_text : ℕ → Map Value → String
  pub spool_read : String → Option (ℕ × Option (String × Map Value))
  pub store_text : Map Value → String → String
  pub store_read : String → Option (Option (String × Map Value) × String)

-- A file is missing, or is its lines. An append that fails writes nothing.
abbrev pub File : Type 0
File = Option (List String)

abbrev pub lines_of : File → List String
lines_of none = []
lines_of (some ls) = ls

-- The size in bytes: each line ends in a newline.
unfoldable pub size_of : List String → ℕ
size_of [] = 0
size_of (l ∷ ls) = len l + 1 + size_of ls

abbrev pub append_line : File → String → File
append_line f l = some (lines_of f ++ l ∷ [])

-- bufio.MaxScanTokenSize: a line and its newline have to fit in the scanner's buffer.
abbrev pub max_token : ℕ
max_token = 65536

unfoldable pub fits : String → Bool
fits l = ltb (len l) max_token

abbrev pub zero_event : Event
zero_event = record {
  id = "";
  timestamp = "";
  received_at = "";
  zone = "";
  source = "";
  source_type = "";
  asset_name = "";
  asset_ip = "";
  severity = "";
  protocol = "";
  event_category = "";
  message = "";
  raw = "";
  tags = [];
  extra_fields = [];
  original_raw = "";
}

-- Event.UnmarshalJSON on the event of a record.
unfoldable pub read_event : Platform → String → Option (String × Map Value) → Event
read_event p now none = zero_event
read_event p now (some (text, m)) = parse_object p now text m
