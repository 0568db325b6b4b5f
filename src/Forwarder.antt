-- ===== src/Forwarder.antt =====
-- internal/forwarder: the wait between attempts (retry.go) and the syslog sender (syslog.go).
-- Sending is an argument `net`, which answers with an error's text or none.
pub mod Retry
use dmz_collector.Base.{
  ℕ, zero, suc, ◌+◌, ◌-◌, ◌*◌, ◌%◌, ◌^◌, String, Option, none, some, ltb, eqb, if◌then◌else◌, ◌==◌,
}
use dmz_collector.Text.{to_lower, trim_space}
use dmz_collector.Event.{Event}

-- `negsuc n` is -(n + 1).
pub data ℤ : Type 0 where
  pos : ℕ → ℤ
  negsuc : ℕ → ℤ

-- A product of non-negative numbers as an int64 keeps it.
abbrev pub int64 : ℕ → ℤ
int64 n = let m = n % 2 ^ 64 in if ltb m (2 ^ 63) then pos m else negsuc (2 ^ 64 - m - 1)

abbrev pub millisecond : ℕ
millisecond = 1_000_000

abbrev pub half_minute : ℕ
half_minute = 30_000_000_000

abbrev pub capped : ℤ → ℤ
capped (pos d) = if ltb half_minute d then pos half_minute else pos d
capped (negsuc d) = negsuc d

-- Backoff, in nanoseconds, for an attempt that is not negative.
unfoldable pub backoff : ℕ → ℤ
backoff attempt =
    let n = if ltb attempt 1 then 1 else attempt in capped (int64 (n * n * (200 * millisecond)))

-- An attempt to send: host, port, protocol and event.
abbrev pub Net : Type 0
Net = String → ℕ → String → Event → Option String

-- SyslogForwarder.Send
unfoldable pub syslog_send : Net → String → ℕ → String → Event → Option String
syslog_send net host port protocol e =
    let proto = to_lower (trim_space protocol) in
    if host == ""
    then some "syslog host is empty"
    else net host (if eqb port 0 then 514 else port) (if proto == "" then "udp" else proto) e
