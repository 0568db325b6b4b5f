-- ===== src/Config/Environment.antt =====
-- internal/config/config.go: the tokens and the numbers that the collector reads from its environment.
-- os.Getenv, os.ReadFile and strconv.Atoi are the fields of EnvironmentLib.
use dmz_collector.Base.{
  ℕ, String, Bool, false, not, [], ◌∷◌, Option, none, some, if◌then◌else◌, ◌==◌, member, eqb,
}
use dmz_collector.Text.{to_lower, trim_space, switch}
use dmz_collector.Config.{
  ConfigLib, Write, ForwardingConfig, ConfigFile, ForwardingStore, load_or_init,
}

pub record EnvironmentLib : Type 0 where
  -- a variable's value, or the empty text
  pub get : String → String
  -- a file's contents, if it can be read
  pub read_file : String → Option String
  -- a number that is not negative, in decimal
  pub atoi : String → Option ℕ

abbrev pub invalid_token_file : String
invalid_token_file = "__invalid_endpoint_token_file__"

-- parseBool
unfoldable pub parse_bool : String → Bool
parse_bool v = member (to_lower (trim_space v)) ("1" ∷ "true" ∷ "yes" ∷ "on" ∷ [])

-- slog.Level
pub data Level : Type 0 where
  debug info warn error : Level

-- parseLevel
unfoldable pub parse_level : String → Level
parse_level v =
    switch (to_lower (trim_space v))
      (("debug" ∷ [], debug) ∷ ("warn" ∷ "warning" ∷ [], warn) ∷ ("error" ∷ [], error) ∷ []) info

module _ (lib : EnvironmentLib) where
  -- loadEndpointToken
  unfoldable pub load_endpoint_token : String → String → String → String
  load_endpoint_token env_key file_key fallback =
      let path = trim_space (lib.get file_key) in
      let own = trim_space (lib.get env_key) in
      if not (path == "")
      then (elim (lib.read_file path) [
        | none ↦ invalid_token_file
        | some text ↦ if not (trim_space text == "") then trim_space text else invalid_token_file
      ])
      else if not (own == "")
      then own
      else trim_space fallback

  -- getenv
  unfoldable pub getenv : String → String → String
  getenv key otherwise = if lib.get key == "" then otherwise else lib.get key

  -- parseInt: a number that is not positive is answered by the default.
  unfoldable pub parse_int : String → ℕ → ℕ
  parse_int v otherwise = elim (lib.atoi (trim_space v)) [
    | none ↦ otherwise
    | some n ↦ if eqb n 0 then otherwise else n
  ]

  -- The tokens of Load, one for each route that has its own.
  unfoldable pub ingest_token : String
  ingest_token = trim_space (lib.get "DMZ_INGEST_TOKEN")

  unfoldable pub opcua_dmz_events_token : String
  unfolding load_endpoint_token ingest_token
  opcua_dmz_events_token =
      load_endpoint_token "DMZ_COLLECTOR_OPCUA_DMZ_EVENTS_TOKEN"
        "DMZ_COLLECTOR_OPCUA_DMZ_EVENTS_TOKEN_FILE" ingest_token

  unfoldable pub jumphost_events_token : String
  unfolding load_endpoint_token ingest_token
  jumphost_events_token =
      load_endpoint_token "DMZ_COLLECTOR_JUMPHOST_EVENTS_TOKEN"
        "DMZ_COLLECTOR_JUMPHOST_EVENTS_TOKEN_FILE" ingest_token

  unfoldable pub gds_events_token : String
  unfolding load_endpoint_token ingest_token
  gds_events_token =
      load_endpoint_token "DMZ_COLLECTOR_GDS_EVENTS_TOKEN" "DMZ_COLLECTOR_GDS_EVENTS_TOKEN_FILE"
        ingest_token

-- SyslogConfig
pub record SyslogConfig : Type 0 where
  pub enabled : Bool
  pub host : String
  pub port : ℕ
  pub protocol : String

-- SplunkConfig, without the time limit, which is constant
pub record SplunkConfig : Type 0 where
  pub enabled : Bool
  pub url : String
  pub token : String
  pub index : String
  pub source : String
  pub verify_tls : Bool

-- VaultConfig
pub record VaultConfig : Type 0 where
  pub enabled : Bool
  pub addr : String
  pub token : String
  pub secret_path : String

-- SelfTelemetryConfig; the interval in seconds
pub record SelfTelemetryConfig : Type 0 where
  pub enabled : Bool
  pub interval : ℕ
  pub spool_warn_events : ℕ
  pub spool_critical_events : ℕ
  pub emit_event_flow_counters : Bool

module _ (lib : EnvironmentLib) where
  abbrev flag : String → String → Bool
  flag key otherwise = parse_bool (getenv lib key otherwise)

  -- loadSplunk
  unfoldable pub load_splunk : SplunkConfig
  unfolding parse_bool getenv
  load_splunk = record {
    enabled = flag "SPLUNK_HEC_ENABLED" "false";
    url = getenv lib "SPLUNK_HEC_URL" "";
    token = getenv lib "SPLUNK_HEC_TOKEN" "";
    index = getenv lib "SPLUNK_INDEX" "ot_security";
    source = getenv lib "SPLUNK_SOURCE" "labshock_dmz_collector";
    verify_tls = flag "SPLUNK_VERIFY_TLS" "false";
  }

  -- loadSyslog
  unfoldable pub load_syslog : SyslogConfig
  unfolding parse_bool getenv parse_int
  load_syslog = record {
    enabled = flag "SYSLOG_FORWARD_ENABLED" "false";
    host = getenv lib "SYSLOG_FORWARD_HOST" "";
    port = parse_int lib (getenv lib "SYSLOG_FORWARD_PORT" "514") 514;
    protocol = to_lower (getenv lib "SYSLOG_FORWARD_PROTOCOL" "udp");
  }

  -- loadVault
  unfoldable pub load_vault : VaultConfig
  unfolding parse_bool getenv
  load_vault = record {
    enabled = flag "VAULT_ENABLED" "false";
    addr = getenv lib "VAULT_ADDR" "http://192.168.10.10:8200";
    token = getenv lib "VAULT_TOKEN" "";
    secret_path = getenv lib "VAULT_SECRET_PATH" "secret/data/dmz_collector/splunk";
  }

  -- loadSelfTelemetry
  unfoldable pub load_self_telemetry : SelfTelemetryConfig
  unfolding parse_bool getenv parse_int
  load_self_telemetry = record {
    enabled = flag "DMZ_SELF_TELEMETRY_ENABLED" "true";
    interval = parse_int lib (getenv lib "DMZ_SELF_TELEMETRY_INTERVAL_SECONDS" "60") 60;
    spool_warn_events =
        parse_int lib (getenv lib "DMZ_SELF_TELEMETRY_SPOOL_WARN_EVENTS" "1000") 1_000;
    spool_critical_events =
        parse_int lib (getenv lib "DMZ_SELF_TELEMETRY_SPOOL_CRITICAL_EVENTS" "10000") 10_000;
    emit_event_flow_counters = flag "DMZ_SELF_TELEMETRY_EVENT_FLOW" "true";
  }

  -- What NewForwardingStore starts from.
  unfoldable pub forwarding_from_env : ForwardingConfig
  unfolding load_splunk load_syslog
  forwarding_from_env = record {
    splunk_enabled = load_splunk.enabled;
    splunk_hec_url = load_splunk.url;
    splunk_hec_token = load_splunk.token;
    splunk_index = load_splunk.index;
    splunk_source = load_splunk.source;
    splunk_verify_tls = load_splunk.verify_tls;
    syslog_forward_enabled = load_syslog.enabled;
    syslog_forward_host = load_syslog.host;
    syslog_forward_port = load_syslog.port;
    syslog_forward_protocol = load_syslog.protocol;
    paused = false;
  }

  -- NewForwardingStore: `none` is an error.
  unfoldable pub new_forwarding_store : ConfigLib → Write → ConfigFile → Option ForwardingStore
  unfolding forwarding_from_env
  new_forwarding_store config answer file =
      load_or_init config answer (record { file = file; cfg = forwarding_from_env })
