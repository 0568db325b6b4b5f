-- ===== src/Config.antt =====
-- internal/config/forwarding.go: the forwarding configuration, in memory and in its file. What the
-- file system answers to a write is an argument.
pub mod Store
pub mod Environment
use dmz_collector.Base.{
  ℕ, String, Bool, true, false, List, [], ◌∷◌, Option, none, some, Map, lookup, if◌then◌else◌, ◌==◌,
  eqb,
}
use dmz_collector.Value.{Value, null, bool, num, str}

pub record ForwardingConfig : Type 0 where
  pub splunk_enabled : Bool
  pub splunk_hec_url : String
  pub splunk_hec_token : String
  pub splunk_index : String
  pub splunk_source : String
  pub splunk_verify_tls : Bool
  pub syslog_forward_enabled : Bool
  pub syslog_forward_host : String
  pub syslog_forward_port : ℕ
  pub syslog_forward_protocol : String
  pub paused : Bool

-- What encoding/json does with an object and with an int that is not negative; the text `null` reads
-- as the empty object.
pub record ConfigLib : Type 0 where
  pub marshal_indent : Map Value → String
  pub unmarshal_object : String → Option (Map Value)
  pub itoa : ℕ → String
  pub atoi : String → Option ℕ

infixl 5 ◌>>=◌
abbrev ◌>>=◌ {ℓ κ} : {A : Type ℓ} {B : Type κ} → Option A → (A → Option B) → Option B
none >>= f = none
some a >>= f = f a

-- A field of a struct as json.Unmarshal reads it: zero where its key is missing or null, `none` where
-- its value is of another kind.
unfoldable pub bool_field : Option Value → Option Bool
bool_field none = some false
bool_field (some null) = some false
bool_field (some (bool b)) = some b
bool_field (some _) = none

unfoldable pub string_field : Option Value → Option String
string_field none = some ""
string_field (some null) = some ""
string_field (some (str s)) = some s
string_field (some _) = none

module _ (lib : ConfigLib) where
  unfoldable pub int_field : Option Value → Option ℕ
  int_field none = some 0
  int_field (some null) = some 0
  int_field (some (num t)) = lib.atoi t
  int_field (some _) = none

  -- The object that json.MarshalIndent writes of a configuration, by the tags of its fields.
  unfoldable pub encoded : ForwardingConfig → Map Value
  encoded cfg =
      ("splunk_enabled", bool cfg.splunk_enabled)
      ∷ ("splunk_hec_url", str cfg.splunk_hec_url)
      ∷ ("splunk_hec_token", str cfg.splunk_hec_token)
      ∷ ("splunk_index", str cfg.splunk_index)
      ∷ ("splunk_source", str cfg.splunk_source)
      ∷ ("splunk_verify_tls", bool cfg.splunk_verify_tls)
      ∷ ("syslog_forward_enabled", bool cfg.syslog_forward_enabled)
      ∷ ("syslog_forward_host", str cfg.syslog_forward_host)
      ∷ ("syslog_forward_port", num (lib.itoa cfg.syslog_forward_port))
      ∷ ("syslog_forward_protocol", str cfg.syslog_forward_protocol)
      ∷ ("paused", bool cfg.paused)
      ∷ []

  -- The configuration that json.Unmarshal reads of an object, by the same tags.
  unfoldable pub decoded : Map Value → Option ForwardingConfig
  unfolding bool_field string_field int_field
  decoded m = do
    splunk_enabled ← bool_field (lookup "splunk_enabled" m)
    splunk_hec_url ← string_field (lookup "splunk_hec_url" m)
    splunk_hec_token ← string_field (lookup "splunk_hec_token" m)
    splunk_index ← string_field (lookup "splunk_index" m)
    splunk_source ← string_field (lookup "splunk_source" m)
    splunk_verify_tls ← bool_field (lookup "splunk_verify_tls" m)
    syslog_forward_enabled ← bool_field (lookup "syslog_forward_enabled" m)
    syslog_forward_host ← string_field (lookup "syslog_forward_host" m)
    syslog_forward_port ← int_field (lookup "syslog_forward_port" m)
    syslog_forward_protocol ← string_field (lookup "syslog_forward_protocol" m)
    paused ← bool_field (lookup "paused" m)
    some (record {
      splunk_enabled = splunk_enabled;
      splunk_hec_url = splunk_hec_url;
      splunk_hec_token = splunk_hec_token;
      splunk_index = splunk_index;
      splunk_source = splunk_source;
      splunk_verify_tls = splunk_verify_tls;
      syslog_forward_enabled = syslog_forward_enabled;
      syslog_forward_host = syslog_forward_host;
      syslog_forward_port = syslog_forward_port;
      syslog_forward_protocol = syslog_forward_protocol;
      paused = paused;
    })

-- The file as reading it finds it: missing, unreadable, or a text.
pub data ConfigFile : Type 0 where
  missing unreadable : ConfigFile
  holds : String → ConfigFile

-- What os.WriteFile answers: the text is written, or there is an error, and the file is left as some
-- other, be it truncated.
pub data Write : Type 0 where
  written : Write
  fails : String → ConfigFile → Write

abbrev pub is_written : Write → Bool
is_written written = true
is_written (fails error left) = false

abbrev pub error_of : Write → String
error_of written = ""
error_of (fails error left) = error

pub record ForwardingStore : Type 0 where
  pub file : ConfigFile
  pub cfg : ForwardingConfig

-- persistLocked: whether it succeeded, and the store after.
unfoldable pub persist : ConfigLib → Write → ForwardingStore → Bool × ForwardingStore
unfolding encoded
persist lib written s = (true, record s { file = holds (lib.marshal_indent (encoded lib s.cfg)) })
persist lib (fails error left) s = (false, record s { file = left })

-- loadOrInit: `none` is an error.
unfoldable pub load_or_init : ConfigLib → Write → ForwardingStore → Option ForwardingStore
unfolding persist decoded
load_or_init lib answer s = elim s.file [
  | missing ↦ persisted s
  | unreadable ↦ none
  | holds text ↦ if text == "" then persisted s else elim (lib.unmarshal_object text) [
    | none ↦ none
    | some m ↦ elim (decoded lib m) [ none ↦ none | some cfg ↦ persisted (record s { cfg = cfg }) ]
  ]
]
  where
    persisted : ForwardingStore → Option ForwardingStore
    persisted t = let (done, u) = persist lib answer t in if done then some u else none

-- Replace's defaults for what the request leaves empty.
unfoldable pub completed : ForwardingConfig → ForwardingConfig
completed cfg = record cfg {
  splunk_index = if cfg.splunk_index == "" then "ot_security" else cfg.splunk_index;
  splunk_source = if cfg.splunk_source == "" then "labshock_dmz_collector" else cfg.splunk_source;
  syslog_forward_port = if eqb cfg.syslog_forward_port 0 then 514 else cfg.syslog_forward_port;
  syslog_forward_protocol =
      if cfg.syslog_forward_protocol == "" then "udp" else cfg.syslog_forward_protocol;
}

-- Replace: the memory is changed before the write is tried.
unfoldable pub replace :
    ConfigLib → Write → ForwardingConfig → ForwardingStore → Bool × ForwardingStore
unfolding persist completed
replace lib answer cfg s = persist lib answer (record s { cfg = completed cfg })

-- UpdatePaused
unfoldable pub update_paused : ConfigLib → Write → Bool → ForwardingStore → Bool × ForwardingStore
unfolding persist
update_paused lib answer v s = persist lib answer (record s { cfg = record s.cfg { paused = v } })
