-- ===== src/Config/Store.antt =====
-- What a restart finds of a forwarding configuration that was put in place.
use text.Mathlib.TextLemmas.{cons≢nil}
use dmz_collector.Base.{
  ap, false, lookup, String, ◌==◌, if◌then◌else◌, some, ◌≡◌, refl, ◌≢◌, arith, eq_iff,
}
use dmz_collector.Config.{
  ForwardingConfig, ForwardingStore, ConfigLib, written, persist, load_or_init, replace, completed,
  encoded, decoded, bool_field, string_field, int_field,
}

filled : (v d : String) → d ≢ "" → (if v == "" then d else v) ≢ ""
filled v d h = ground (arith, eq_iff v "")

completed_again : (cfg : ForwardingConfig) → completed (completed cfg) ≡ completed cfg
unfolding completed
completed_again cfg = ground (
  arith,
  eq_iff cfg.splunk_index "",
  eq_iff cfg.splunk_source "",
  eq_iff cfg.syslog_forward_protocol "",
)

-- What is encoded by the tags is decoded by the tags.
decoded-encoded :
    (lib : ConfigLib) (cfg : ForwardingConfig)
    → lib.atoi (lib.itoa cfg.syslog_forward_port) ≡ some cfg.syslog_forward_port
    → decoded lib (encoded lib cfg) ≡ some cfg
unfolding decoded encoded lookup bool_field string_field int_field
decoded-encoded lib cfg port = rw port refl

-- A configuration that was put in place is in memory with its gaps filled (no index, source or
-- protocol is empty and the port is not 0), and a restart that can read and write the file comes up
-- with that very configuration, whatever the environment gave it to start from; putting it in place
-- again changes nothing. The written object is a text that is not empty and reads as that object, and
-- the port reads as it was written.
pub load_or_init-replace :
    (lib : ConfigLib) (cfg env : ForwardingConfig) (s : ForwardingStore)
    → lib.marshal_indent (encoded lib (completed cfg)) ≢ ""
    → lib.unmarshal_object (lib.marshal_indent (encoded lib (completed cfg)))
      ≡ some (encoded lib (completed cfg))
    → lib.atoi (lib.itoa (completed cfg).syslog_forward_port)
      ≡ some (completed cfg).syslog_forward_port
    → let t = (replace lib written cfg s).1 in
      (load_or_init lib written (record t { cfg = env }) ≡ some t)
      × (t.cfg.splunk_index ≢ "")
      × (t.cfg.splunk_source ≢ "")
      × (t.cfg.syslog_forward_protocol ≢ "")
      × (t.cfg.syslog_forward_port ≢ 0)
      × ((replace lib written t.cfg t).1 ≡ t)
unfolding load_or_init replace completed
load_or_init-replace lib cfg env s set reads port =
    let c = completed cfg in
    let text = lib.marshal_indent (encoded lib c) in
    let unset : (text == "") ≡ false = ground (arith, eq_iff text "") in
    (
      rw (unset, reads, decoded-encoded lib c port) refl,
      filled cfg.splunk_index _ cons≢nil,
      filled cfg.splunk_source _ cons≢nil,
      filled cfg.syslog_forward_protocol _ cons≢nil,
      ground arith,
      ap (λ d. (persist lib written (record s { cfg = d })).1) (completed_again cfg),
    )
