-- ===== src/Api/Settings.antt =====
-- handleConfigForwarding of internal/api/handlers.go.
use Prim.Native.String.{◌++◌ as append_text}
use dmz_collector.Base.{String, ◌||◌, not, Option, none, some, if◌then◌else◌, ◌==◌}
use dmz_collector.Text.{trim_space}
use dmz_collector.Config.{ForwardingConfig, Write, error_of}
use dmz_collector.App.{App, Env}
use dmz_collector.App.Forward.{update_forwarding_config}
use dmz_collector.Api.{
  ForwardingView, forwarding, Response, Handler, fail, method_not_allowed, limited,
}

-- forwardingConfigResponse
unfoldable pub forwarding_config_response : ForwardingConfig → ForwardingView
forwarding_config_response cfg = record {
  shown = record cfg { splunk_hec_token = "" };
  splunk_hec_token_set = not (trim_space cfg.splunk_hec_token == "");
}

abbrev pub shows : App → App × Response
shows a = (a, record { status = 200; payload = forwarding (forwarding_config_response a.fwd.cfg) })

-- A token that is blank or masked stands for the one in place.
unfoldable pub with_token : ForwardingConfig → ForwardingConfig → ForwardingConfig
with_token current cfg =
    let token = trim_space cfg.splunk_hec_token in
    if (token == "") || (token == "********")
    then record cfg { splunk_hec_token = current.splunk_hec_token }
    else cfg

-- The decoder of encoding/json for a configuration, and what writing its file answers.
module _ (env : Env) (decode : String → Option ForwardingConfig) (answer : Write) where
  unfoldable post_config : Handler
  unfolding with_token
  post_config r a = elim r.body [
    | none ↦ fail 400 "invalid forwarding config" a
    | some body ↦ elim (decode (limited 1_048_576 body)) [
      | none ↦ fail 400 "invalid forwarding config" a
      | some cfg ↦
          (let (b, done) = update_forwarding_config env answer (with_token a.fwd.cfg cfg) a in
            if done then shows b else fail 500 (append_text "update failed: " (error_of answer)) b)
    ]
  ]

  -- handleConfigForwarding
  unfoldable pub handle_config_forwarding : Handler
  unfolding post_config
  handle_config_forwarding r a =
      if r.method == "GET"
      then shows a
      else if r.method == "POST"
      then post_config r a
      else method_not_allowed a
