-- ===== src/App/Syslog.antt =====
-- What becomes of a line of syslog in the collector: internal/ingest/syslog_receiver.go and IngestSingle
-- of cmd/dmz-collector/main.go.
use dmz_collector.Base.{◌≡◌, ◌≢◌, refl, String, Bool, false, List, ◌∷◌, arith, eq_iff, ◌∙◌}
use dmz_collector.Text.{to_lower, trim_space}
use dmz_collector.Text.Laws.{switch-All}
use dmz_collector.Event.{Platform, Event, ensure_defaults}
use dmz_collector.Normalizer.{
  Result, ok, err, validate_and_normalize, defaulted_form, canonical_form, apply_source_specific,
  source_cases, enrich_dmz,
}
use dmz_collector.App.{App, Env, take_in, ingest_one}
use dmz_collector.App.Ingest.{is_storable, stored-cases}
use dmz_collector.App.Batch.{accepted_of}
use dmz_collector.Receivers.Jumphost.Ssh.{Pattern}
use dmz_collector.Receivers.Syslog.{
  SyslogLib, parse_syslog_line, is_jumphost_syslog, normalize_firewall_line, normalize_syslog_line,
}

original_raw-apply_source_specific :
    (p : Platform) (original : String) (e : Event)
    → (apply_source_specific p original e).original_raw ≡ e.original_raw
unfolding apply_source_specific
original_raw-apply_source_specific p original e =
    switch-All (λ (f : Event). f.original_raw ≡ e.original_raw) e.source_type
      (source_cases p original e) e (refl, (refl, tt)) refl

original_raw-enrich_dmz :
    (now : String) (e : Event) → (enrich_dmz now e).original_raw ≡ e.original_raw
unfolding enrich_dmz
original_raw-enrich_dmz now e = ground arith

-- Nothing is accepted, and no file and no count has changed.
abbrev Refused : App → App × Result (Bool × Bool) → Type 0
Refused a r =
    (accepted_of r.1 ≡ 0) × (r.0.store ≡ a.store) × (r.0.spool ≡ a.spool) × (r.0.stats ≡ a.stats)

take_in-Refused :
    (env : Env) (e : Event) (a : App) → is_storable env e ≡ false → Refused a (take_in env e a)
unfolding take_in
take_in-Refused env e a h =
    ground (arith, stored-cases env e (record a { seen_ids = e.id ∷ a.seen_ids }))

original_raw-validate_and_normalize :
    (p : Platform) (now : String) (e f : Event)
    → validate_and_normalize p now e ≡ ok f
    → f.original_raw ≡ e.original_raw
unfolding validate_and_normalize canonical_form defaulted_form ensure_defaults
original_raw-validate_and_normalize p now e f valid = ground (
  arith,
  original_raw-apply_source_specific p (to_lower (trim_space e.source_type))
      (canonical_form p now (defaulted_form p now e)),
)

module _ (env : Env) (e : Event) (a : App) (set : e.original_raw ≢ "")
    (no_json : env.codec.is_json e.original_raw ≡ false) where
  validated-Refused :
      (valid : Result Event)
      → ((f : Event) → valid ≡ ok f → f.original_raw ≡ e.original_raw)
      → Refused a
          (elim valid [ err x ↦ (a, err x) | ok f ↦ take_in env (enrich_dmz env.clock.text f) a ])
  validated-Refused (err x) h = (refl, refl, refl, refl)
  validated-Refused (ok f) h =
      let raw = original_raw-enrich_dmz env.clock.text f ∙ h f refl in
      take_in-Refused env (enrich_dmz env.clock.text f) a
        (ground (arith, raw, eq_iff e.original_raw ""))

  ingest_one-Refused : Refused a (ingest_one env e a)
  unfolding ingest_one
  ingest_one-Refused =
      validated-Refused (validate_and_normalize env.platform env.clock.text e)
        (original_raw-validate_and_normalize env.platform env.clock.text e)

module _ (submatch : Pattern → String → List String) (lib : SyslogLib) where
  -- A line of syslog that is no line of the jump host, not empty and no JSON text is never accepted,
  -- whatever the clock, the sender and the files: the line is put where the JSON text of the event
  -- belongs, so the store refuses it, and the store, the spool and the statistics stay as they were.
  pub syslog_line_refused :
      (env : Env) (line remote : String) (a : App)
      → is_jumphost_syslog (parse_syslog_line lib env.platform line remote) ≡ false
      → line ≢ ""
      → env.codec.is_json line ≡ false
      → let r =
          ingest_one env
            (normalize_syslog_line submatch lib env.platform env.codec env.clock.text line remote)
            a in
        (accepted_of r.1 ≡ 0)
        × (r.0.store ≡ a.store)
        × (r.0.spool ≡ a.spool)
        × (r.0.stats ≡ a.stats)
  unfolding normalize_syslog_line normalize_firewall_line
  syslog_line_refused env line remote a other set no_json = rw other (
      ingest_one-Refused env (normalize_firewall_line lib env.platform env.clock.text line remote) a
        set no_json)
