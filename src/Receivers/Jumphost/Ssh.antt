-- ===== src/Receivers/Jumphost/Ssh.antt =====
-- What internal/ingest/jumphost_events.go reads in a line of sshd. Go's package regexp is the
-- parameter `submatch`: a match and its groups, or nothing where the pattern does not match.
use dmz_collector.Base.{
  ℕ, zero, suc, String, Bool, true, false, not, ◌&&◌, ◌||◌, List, [], ◌∷◌, Map, insert, exists,
  if◌then◌else◌, ◌==◌, leb, length,
}
use dmz_collector.Text.{to_lower, trim_space, contains}
use dmz_collector.Value.{Value, str}
use dmz_collector.Receivers.Cases.{first_case}

-- The regular expressions of the file.
pub data Pattern : Type 0 where
  accepted_key_with_cert accepted_key accepted_cert_id postponed_publickey failed_auth invalid_user
        closed_invalid_user closed_preauth received_disconnect disconnected_user session_opened
        session_closed connection_from host_key_mismatch :
      Pattern

-- m[i]
abbrev pub group : ℕ → List String → String
group n [] = ""
group zero (g ∷ gs) = g
group (suc n) (g ∷ gs) = group n gs

-- The user, the address and the port of the first three groups.
unfoldable pub user_at : List String → Map Value
user_at m =
    ("user", str (group 1 m)) ∷ ("src_ip", str (group 2 m)) ∷ ("src_port", str (group 3 m)) ∷ []

unfoldable pub address_at : List String → Map Value
address_at m = ("src_ip", str (group 1 m)) ∷ ("src_port", str (group 2 m)) ∷ []

unfoldable pub certificate_at : List String → Map Value
certificate_at m =
    let id : Map Value = ("cert_id", str (group 1 m)) ∷ [] in
    insert "ca_fingerprint" (str (group 3 m))
      (if group 2 m == "" then id else insert "cert_serial" (str (group 2 m)) id)

unfoldable pub offer_at : List String → Map Value
unfolding address_at
offer_at m =
    let offered = trim_space (group 3 m) in
    if leb 4 (length m) && not (offered == "")
    then insert "offered_algorithms" (str offered) (address_at m)
    else address_at m

unfoldable pub login_at : List String → Map Value
unfolding user_at
login_at m = if leb 5 (length m) then insert "cert_id" (str (group 4 m)) (user_at m) else user_at m

-- A pattern, the least number of entries that its match needs, and what is taken from it.
pub record Rule : Type 0 where
  pub pattern : Pattern
  pub entries : ℕ
  pub taken : List String → Map Value

abbrev rule : Pattern → ℕ → (List String → Map Value) → Rule
rule pattern entries taken = record { pattern = pattern; entries = entries; taken = taken }

-- The patterns in the order in which they are tried.
abbrev pub rules : List Rule
rules =
    rule accepted_cert_id 4 certificate_at
    ∷ rule postponed_publickey 4 user_at
    ∷ rule host_key_mismatch 3 offer_at
    ∷ rule accepted_key_with_cert 4 login_at
    ∷ rule accepted_key 4 login_at
    ∷ rule failed_auth 4 login_at
    ∷ rule invalid_user 4 login_at
    ∷ rule closed_invalid_user 4 user_at
    ∷ rule closed_preauth 3 address_at
    ∷ rule received_disconnect 3 address_at
    ∷ rule disconnected_user 4 user_at
    ∷ rule connection_from 3 address_at
    ∷ rule session_opened 2 (λ m. ("user", str (group 1 m)) ∷ [])
    ∷ rule session_closed 2 (λ m. ("user", str (group 1 m)) ∷ [])
    ∷ []

module _ (submatch : Pattern → String → List String) where
  -- MatchString
  abbrev pub matches : Pattern → String → Bool
  matches pattern text = elim (submatch pattern text) [ [] ↦ false | g ∷ gs ↦ true ]

  unfoldable pub first_rule : String → List Rule → Map Value
  first_rule message [] = []
  first_rule message (r ∷ rs) =
      let rest = first_rule message rs in
      let m = submatch r.pattern message in if leb r.entries (length m) then r.taken m else rest

  -- fieldsFromJumphostSyslogMessage
  unfoldable pub fields_from_syslog_message : String → Map Value
  unfolding first_rule
  fields_from_syslog_message message = first_rule message rules

  -- The cases of messageFromJumphostText.
  abbrev pub text_cases : String → String → List (Bool × String)
  text_cases text lower =
      (contains lower "accepted certificate id", "jump_cert_accepted")
      ∷ (contains lower "postponed publickey for", "jump_pubkey_postponed")
      ∷ (
        contains lower "unable to negotiate with" && contains lower "no matching host key type",
        "jump_hostkey_mismatch",
      )
      ∷ (matches accepted_key_with_cert text, "jump_cert_login_success")
      ∷ (matches accepted_key text, "jump_login_success")
      ∷ (matches failed_auth text, "jump_login_failed")
      ∷ (contains lower "connection closed by invalid user", "jump_invalid_user")
      ∷ (matches invalid_user text, "jump_invalid_user")
      ∷ (contains lower "not allowed because account is locked", "jump_account_locked")
      ∷ (matches closed_preauth text, "jump_preauth_connection_closed")
      ∷ (matches connection_from text, "jump_connection_started")
      ∷ (contains lower "received disconnect from", "jump_session_disconnected")
      ∷ (contains lower "disconnected from user", "jump_session_closed_user")
      ∷ (
        contains lower "open failed"
            || contains lower "administratively prohibited"
            || (contains lower "permitopen" && contains lower "den")
            || contains lower "forward denied",
        "jump_forward_denied",
      )
      ∷ (matches session_opened text, "jump_session_open")
      ∷ (matches session_closed text, "jump_session_close")
      ∷ (
        contains lower "user/password ssh access is disabled"
            || contains lower "passwordauthentication no",
        "jump_password_auth_disabled",
      )
      ∷ (
        contains lower "trustedusercakeys"
            || contains lower "allowtcpforwarding"
            || contains lower "vault ssh ca bastion policy"
            || (contains lower "permitopen" && not (contains lower "den")),
        "jump_bastion_policy_applied",
      )
      ∷ (contains lower "unauthorized" && contains lower "zone", "jump_unauthorized_zone_access")
      ∷ (
        contains lower "sudo"
            && exists (contains lower)
                ("authentication failure" ∷ "incorrect password" ∷ "failed" ∷ []),
        "jump_sudo_failed",
      )
      ∷ (contains lower "sudo", "jump_sudo_executed")
      ∷ (
        contains lower "failed password" || contains lower "authentication failure",
        "jump_login_failed",
      )
      ∷ (
        exists (contains lower)
            ("accepted password" ∷ "accepted publickey" ∷ "session opened for user" ∷ []),
        "jump_login_success",
      )
      ∷ (contains lower "session opened", "jump_session_opened")
      ∷ (contains lower "session closed", "jump_session_closed")
      ∷ (contains lower "logout", "jump_logout")
      ∷ (contains lower "heartbeat", "jump_heartbeat")
      ∷ []

  -- messageFromJumphostText
  unfoldable pub message_from_text : String → String
  unfolding first_case
  message_from_text text = first_case (text_cases text (to_lower text)) ""
