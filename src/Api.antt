-- ===== src/Api.antt =====
-- internal/api, internal/auth and internal/ingest/http_receiver.go: the requests that post events and
-- those that read and set the forwarding configuration. A request is what net/http gives a handler,
-- and an answer its status and what its body is made from.
pub mod Events
pub mod Settings
pub mod Refused
pub mod Tokens
pub mod Masked
use Prim.Native.String.{len, slice}
use text.Mathlib.Text.{starts_with}
use dmz_collector.Base.{
  ℕ, String, Bool, true, false, ◌||◌, not, List, [], ◌∷◌, Option, none, some, if◌then◌else◌, ◌==◌,
  member, ltb,
}
use dmz_collector.Text.{to_lower, trim_space}
use dmz_collector.Event.{Event}
use dmz_collector.App.{App}
use dmz_collector.Config.{ForwardingConfig}

pub record Request : Type 0 where
  pub method : String
  -- a parameter of the query, or the empty text
  pub query : String → String
  -- the header Authorization
  pub authorization : String
  pub content_length : ℕ
  -- the body, if it can be read
  pub body : Option String

-- forwardingConfigResponse: the token is never part of the answer.
pub record ForwardingView : Type 0 where
  pub shown : ForwardingConfig
  pub splunk_hec_token_set : Bool

pub data Payload : Type 0 where
  plain : String → Payload
  -- the counts of a batch; the texts of its errors are left out
  counts : (accepted rejected queued : ℕ) → Payload
  events : List Event → Payload
  forwarding : ForwardingView → Payload

pub record Response : Type 0 where
  pub status : ℕ
  pub payload : Payload

abbrev pub Handler : Type 0
Handler = Request → App → App × Response

-- http.Error, which leaves the collector alone
abbrev pub fail : ℕ → String → App → App × Response
fail status message a = (a, record { status = status; payload = plain message })

abbrev pub method_not_allowed : App → App × Response
method_not_allowed a = fail 405 "method not allowed" a

-- auth.RequireBearer
unfoldable pub require_bearer : String → Handler → Handler
require_bearer expected_token next r a =
    let expected = trim_space expected_token in
    let authz = r.authorization in
    if expected == ""
    then next r a
    else if (authz == "") || not (starts_with (to_lower authz) "bearer ")
    then fail 401 "missing bearer token" a
    else if trim_space (slice authz 7 (len authz)) == expected
    then next r a
    else fail 401 "invalid token" a

-- parseBool
unfoldable pub parse_bool : String → Bool
parse_bool v = member (to_lower (trim_space v)) ("1" ∷ "true" ∷ "yes" ∷ "on" ∷ [])

-- io.LimitReader: what lies beyond the limit is not read.
unfoldable pub limited : ℕ → String → String
limited limit body = if ltb limit (len body) then slice body 0 limit else body
