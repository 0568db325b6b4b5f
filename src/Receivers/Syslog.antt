-- ===== src/Receivers/Syslog.antt =====
-- internal/ingest/syslog_receiver.go: what a line of syslog becomes. Go's packages regexp, strconv and
-- net are the fields of SyslogLib.
use dmz_collector.Base.{
  ℕ, ◌/◌, ◌%◌, String, Bool, ◌||◌, List, [], ◌∷◌, Option, none, some, Map, if◌then◌else◌, ◌==◌, eqb,
  insert, exists, length,
}
use dmz_collector.Text.{to_lower, trim_space, contains, join_blank}
use dmz_collector.Value.{Value, bool, str, obj, of_entries}
use dmz_collector.Event.{Platform, Event, ensure_defaults}
use dmz_collector.Disk.{Codec}
use dmz_collector.Receivers.Jumphost.Words.{unknown, is_noise}
use dmz_collector.Receivers.Jumphost.Ssh.{Pattern, fields_from_syslog_message, message_from_text}
use dmz_collector.Receivers.Jumphost.{put_all, event_of_payload}
use dmz_collector.Receivers.Jumphost.Ssh.{group}

-- The regular expressions of the file.
pub data Form : Type 0 where
  rfc5424 rfc3164 pri : Form

pub record SyslogLib : Type 0 where
  -- FindStringSubmatch: the match and its groups, or nothing
  pub submatch : Form → String → List String
  -- the line without its priority
  pub without_pri : String → String
  -- strconv.Atoi of digits
  pub atoi : String → Option ℕ
  -- the host that net.SplitHostPort finds
  pub host_of : String → Option String

-- syslogRecord
pub record SyslogRecord : Type 0 where
  pub message : String
  pub hostname : String
  pub app_name : String
  pub proc_id : String
  pub facility : String
  pub severity : String
  pub docker_tag : String
  pub remote : String

-- cleanSyslogNil
unfoldable pub clean_syslog_nil : String → String
clean_syslog_nil v = if trim_space v == "-" then "" else trim_space v

module _ (lib : SyslogLib) (p : Platform) where
  -- setSyslogPriority
  unfoldable pub set_syslog_priority : String → SyslogRecord → SyslogRecord
  set_syslog_priority text rec = elim (lib.atoi text) [
    | none ↦ rec
    | some n ↦ record rec { facility = p.itoa (n / 8); severity = p.itoa (n % 8) }
  ]

  -- The fields that the two forms with a header share.
  unfoldable pub with_header : List String → SyslogRecord → SyslogRecord
  unfolding set_syslog_priority clean_syslog_nil
  with_header m rec = set_syslog_priority (group 1 m) (record rec {
    hostname = clean_syslog_nil (group 2 m);
    app_name = clean_syslog_nil (group 3 m);
    proc_id = clean_syslog_nil (group 4 m);
    message = trim_space (group 5 m);
    docker_tag = clean_syslog_nil (group 3 m);
  })

  -- parseSyslogLine, with the sender that normalizeSyslogLine sets.
  unfoldable pub parse_syslog_line : String → String → SyslogRecord
  unfolding with_header set_syslog_priority
  parse_syslog_line raw remote =
      let plain : SyslogRecord = record {
        message = raw;
        hostname = "";
        app_name = "";
        proc_id = "";
        facility = "";
        severity = "";
        docker_tag = "";
        remote = remote;
      } in
      let m5424 = lib.submatch rfc5424 raw in
      let m3164 = lib.submatch rfc3164 raw in
      let m_pri = lib.submatch pri raw in
      if eqb (length m5424) 6
      then with_header m5424 plain
      else if eqb (length m3164) 6
      then with_header m3164 plain
      else if eqb (length m_pri) 2
      then record (set_syslog_priority (group 1 m_pri) plain) {
        message = trim_space (lib.without_pri raw);
      }
      else plain

  -- fallbackFirewallIP
  unfoldable pub fallback_firewall_ip : String → String
  fallback_firewall_ip ip =
      if (trim_space ip == "") || (ip == "::1") || (ip == "127.0.0.1") then "192.168.10.254" else ip

  -- normalizeFirewall
  unfoldable pub normalize_firewall_line : String → String → String → Event
  unfolding fallback_firewall_ip
  normalize_firewall_line now raw remote =
      let e : Event = record {
        id = "";
        timestamp = now;
        received_at = now;
        zone = "DMZ";
        source = "";
        source_type = "firewall";
        asset_name = "firewall";
        asset_ip =
            fallback_firewall_ip (elim (lib.host_of remote) [ none ↦ remote | some host ↦ host ]);
        severity = "warning";
        protocol = "syslog";
        event_category = "security";
        message = raw;
        raw = raw;
        tags = ("ingest", str "firewall_syslog") ∷ [];
        extra_fields = [];
        original_raw = "";
      } in
      record (ensure_defaults p now e) { original_raw = raw }

-- isJumphostSyslog
unfoldable pub is_jumphost_syslog : SyslogRecord → Bool
is_jumphost_syslog rec =
    let identity =
      to_lower (join_blank (rec.hostname ∷ rec.app_name ∷ rec.proc_id ∷ rec.docker_tag ∷ [])) in
    let blob = to_lower (join_blank (identity ∷ rec.message ∷ [])) in
    contains identity "labshock_jumphost"
    || exists (contains blob) (
        "sshd" ∷ "sshd.pam" ∷ "sshd-session.pam" ∷ "jumpadmin" ∷ "invaliduser"
        ∷ "accepted publickey" ∷ "failed publickey" ∷ "failed password" ∷ "invalid user"
        ∷ "permission denied" ∷ "administratively prohibited" ∷ "open failed" ∷ [])

module _ (submatch : Pattern → String → List String) where
  -- The record that NormalizeJumphostSyslog makes of a line.
  unfoldable pub jumphost_payload : SyslogRecord → Map Value
  unfolding put_all
  jumphost_payload rec =
      let fixed : Map Value =
        ("syslog_message", str rec.message)
        ∷ ("syslog_hostname", str rec.hostname)
        ∷ ("syslog_appname", str rec.app_name)
        ∷ ("syslog_facility", str rec.facility)
        ∷ ("syslog_severity", str rec.severity)
        ∷ ("docker_tag", str rec.docker_tag)
        ∷ [] in
      let sent =
        if trim_space rec.remote == ""
        then fixed
        else insert "remote_addr" (str rec.remote) fixed in
      let raw = put_all (fields_from_syslog_message submatch rec.message) sent in
      let found = message_from_text submatch rec.message in
      let payload : Map Value =
        ("source", str "jumphost_syslog")
        ∷ ("message", str (if found == "" then unknown else found))
        ∷ ("raw", obj (of_entries raw))
        ∷ [] in
      if is_noise rec.message then insert "low_value" (bool Bool.true) payload else payload

  module _ (lib : SyslogLib) (p : Platform) (c : Codec) (now : String) where
    -- NormalizeJumphostSyslog
    unfoldable pub normalize_jumphost_syslog : SyslogRecord → Event
    unfolding jumphost_payload
    normalize_jumphost_syslog rec = event_of_payload submatch p c now (jumphost_payload rec)

    -- normalizeSyslogLine
    unfoldable pub normalize_syslog_line : String → String → Event
    normalize_syslog_line raw remote =
        let rec = parse_syslog_line lib p raw remote in
        if is_jumphost_syslog rec
        then normalize_jumphost_syslog rec
        else normalize_firewall_line lib p now raw remote
