-- ===== src/Api/Masked.antt =====
-- Reading and posting back the forwarding configuration: handleConfigForwarding of internal/api.
use Prim.Native.String.{◌++◌ as append_text}
use dmz_collector.Base.{
  ℕ, String, Bool, true, ◌&&◌, ◌||◌, not, List, [], ◌∷◌, Option, some, ◌≡◌, refl, ap, ◌∙◌, arith,
  if◌then◌else◌, ◌==◌, if_both, case_both,
}
use dmz_collector.Text.{trim_space}
use dmz_collector.Config.{
  ForwardingConfig, ForwardingStore, Write, written, fails, is_written, error_of, encoded, holds,
  completed, replace,
}
use dmz_collector.App.{App, Env, enqueue_if_needed, mark_inflight, may_enqueue, push_event}
use dmz_collector.Event.{Event}
use dmz_collector.Buffer.Queue
use dmz_collector.Buffer.Spool.{SpoolRecord}
use dmz_collector.Buffer.Spool
use dmz_collector.App.Forward.{enqueue_records, enqueue_pending, update_forwarding_config}
use dmz_collector.Api.{Request, plain, forwarding, limited}
use dmz_collector.Api.Settings.{forwarding_config_response, handle_config_forwarding}

fwd-enqueue_if_needed : (a : App) (e : Event) (n : ℕ) → (enqueue_if_needed a e n).0.fwd ≡ a.fwd
unfolding enqueue_if_needed mark_inflight may_enqueue push_event
fwd-enqueue_if_needed a e n = ground arith

fwd-enqueue_records : (rs : List SpoolRecord) (a : App) → (enqueue_records rs a).0.fwd ≡ a.fwd
unfolding enqueue_records
fwd-enqueue_records [] a = refl
fwd-enqueue_records (r ∷ rs) a =
    fwd-enqueue_records rs (enqueue_if_needed a r.event r.offset).0
    ∙ fwd-enqueue_if_needed a r.event r.offset

fwd-enqueue_pending : (env : Env) (a : App) → (enqueue_pending env a).0.fwd ≡ a.fwd
unfolding enqueue_pending
fwd-enqueue_pending env a =
    case_both (λ (o : App × ℕ). o.0.fwd ≡ a.fwd)
      (Spool.load_pending env.codec env.platform env.clock.text env.spool_readable a.spool) _ _
      (λ failed. refl) (λ rs found. fwd-enqueue_records rs a)

fwd-update_forwarding_config :
    (env : Env) (answer : Write) (cfg : ForwardingConfig) (a : App)
    → ((update_forwarding_config env answer cfg a).0.fwd.cfg ≡ completed cfg)
      × ((update_forwarding_config env answer cfg a).1 ≡ is_written answer)
unfolding update_forwarding_config replace
fwd-update_forwarding_config env written cfg a =
    let active = not cfg.paused && (cfg.splunk_enabled || cfg.syslog_forward_enabled) in
    let stored = record a {
      fwd = record {
        file = holds (env.config.marshal_indent (encoded env.config (completed cfg)));
        cfg = completed cfg;
      };
      queue = Queue.set_paused cfg.paused a.queue;
    } in
    if_both (λ (o : App × Bool). (o.0.fwd.cfg ≡ completed cfg) × (o.1 ≡ true)) active
      ((enqueue_pending env stored).0, true) (stored, true)
      (ap (λ (f : ForwardingStore). f.cfg) (fwd-enqueue_pending env stored), refl) (refl, refl)
fwd-update_forwarding_config env (fails error left) cfg a = (refl, refl)

module _ (env : Env) (decode : String → Option ForwardingConfig) (w : Write) (r : Request)
    (a : App) where
  -- Posting a configuration whose token is blank or the mask, as the answers that show it have it,
  -- puts that configuration in memory with its gaps filled and with the token already in place,
  -- whether or not the file can be written; the answer is the error if it cannot, and else shows the
  -- new configuration without its token and says whether there is one. A read of it changes nothing
  -- and answers in the same form.
  pub handle_config_forwarding_masked :
      (body : String) (cfg : ForwardingConfig)
      → r.body ≡ some body
      → decode (limited 1_048_576 body) ≡ some cfg
      → (trim_space cfg.splunk_hec_token == "") || (trim_space cfg.splunk_hec_token == "********")
        ≡ true
      → let (b, answer) = handle_config_forwarding env decode w (record r { method = "POST" }) a in
        let (c, read) = handle_config_forwarding env decode w (record r { method = "GET" }) b in
        (b.fwd.cfg ≡ completed (record cfg { splunk_hec_token = a.fwd.cfg.splunk_hec_token }))
        × (answer.status ≡ (if is_written w then 200 else 500))
        × (c ≡ b)
        × (read.payload
            ≡ forwarding (record {
              shown = record b.fwd.cfg { splunk_hec_token = "" };
              splunk_hec_token_set = not (trim_space a.fwd.cfg.splunk_hec_token == "");
            }))
        × (answer.payload ≡ (
            if is_written w
            then read.payload
            else plain (append_text "update failed: " (error_of w))))
  unfolding handle_config_forwarding forwarding_config_response completed
  handle_config_forwarding_masked body cfg sent decoded masked = ground (
    arith,
    fwd-update_forwarding_config env w
        (record cfg { splunk_hec_token = a.fwd.cfg.splunk_hec_token }) a,
  )
