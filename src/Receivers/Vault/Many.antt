-- ===== src/Receivers/Vault/Many.antt =====
-- NormalizeVaultAuditMany of internal/ingest/vault_audit.go: what a body of audit records is read as.
use text.Mathlib.Text.{starts_with}
use mathlib.Core.Option.{some-injective}
use dmz_collector.Base.{
  String, true, not, List, [], ◌∷◌, none, some, Map, ◌≡◌, ◌≢◌, refl, arith, if◌then◌else◌, ◌==◌,
  Bool-cases, inl, inr, All, keep, subst, ap, eq_iff, if_both, case_both,
}
use dmz_collector.Text.{trim_space, contains}
use dmz_collector.Text.Parts.{split_lines}
use dmz_collector.Value.{Value}
use dmz_collector.Event.{Platform, Event}
use dmz_collector.Normalizer.{validate_and_normalize, ok, err, invalid_timestamp}
use dmz_collector.Receivers.Settled.{JudgedByTime}
use dmz_collector.Disk.{Codec, zero_event}
use dmz_collector.Receivers.{not_json, suppressed, Reading, read, refused}
use dmz_collector.Receivers.Rows.{
  contents, read-injective, read_rows, read_lines, some_of-All, read_rows-All, read_lines-All,
}
use dmz_collector.Receivers.Vault.Record.{class_of_record}
use dmz_collector.Receivers.Vault.{
  audit_event, normalize_vault_audit, read_record, passing_over, read_log,
  normalize_vault_audit_many,
}
use dmz_collector.Receivers.Vault.Audit.{
  is_named, classify_vault_audit-named, built-validated, built-named,
}

module _ (p : Platform) (c : Codec) (now later : String) (set : now ≢ "")
    (clock : p.is_time now ≡ true) where
  -- An event that is about something, and which validation accepts as it is.
  abbrev Fine : Event → Type 0
  Fine e = (e.message ≢ "") × JudgedByTime p later e

  chosen-Fine :
      (raw : String) (rec : Map Value)
      → let f =
          if (class_of_record p rec).message == ""
          then zero_event
          else audit_event p c now raw rec (class_of_record p rec) in
        (f.message ≢ "" → Fine f)
  chosen-Fine raw rec = elim (Bool-cases ((class_of_record p rec).message == "")) [
    | inl quiet ↦ rw quiet (λ named. absurd (named refl))
    | inr loud ↦
        let named : is_named (class_of_record p rec) ≡ true =
          classify_vault_audit-named _ _ _ _ _
            (λ blank. ground (arith, eq_iff (class_of_record p rec).message "")) in
        rw loud (λ _. (
          built-named p c now raw rec (class_of_record p rec) named,
          built-validated p c now raw rec (class_of_record p rec) later set clock named,
        ))
  ]

  -- A record that is not suppressed.
  abbrev FineIfNamed : Event → Type 0
  FineIfNamed e = e.message ≢ "" → Fine e

  normalize_vault_audit-Fine :
      (raw : String) (e : Event) → normalize_vault_audit p c now raw ≡ some e → FineIfNamed e
  unfolding normalize_vault_audit
  normalize_vault_audit-Fine raw =
      case_both (λ o. (e : Event) → o ≡ some e → FineIfNamed e) (p.unmarshal_object raw) none _
        (λ failed e made. ground arith)
        (λ rec decoded e made. subst FineIfNamed (some-injective _ _ made) (chosen-Fine raw rec))

  read_record-Fine : (raw : String) (e : Event) → read_record p c now raw ≡ read e → FineIfNamed e
  unfolding read_record
  read_record-Fine raw =
      case_both (λ r. (e : Event) → r ≡ read e → FineIfNamed e) (normalize_vault_audit p c now raw)
        (refused not_json) (λ e. read e) (λ failed e made. ground arith)
        (λ e found f made.
          subst FineIfNamed (read-injective made) (normalize_vault_audit-Fine raw e found))

  keep-Fine :
      (es : List Event) → All FineIfNamed es → All Fine (keep (λ e. not (e.message == "")) es)
  keep-Fine [] h = tt
  keep-Fine (e ∷ es) h = elim (Bool-cases (e.message == "")) [
    | inl blank ↦ rw blank (keep-Fine es h.1)
    | inr named ↦ rw named (h.0 (λ blank. ground (arith, eq_iff e.message "")), keep-Fine es h.1)
  ]

  abbrev AllFine : Reading (List Event) → Type 0
  AllFine r = (es : List Event) → r ≡ read es → All Fine es

  passing_over-AllFine :
      (r : Reading (List Event))
      → ((es : List Event) → r ≡ read es → All FineIfNamed es)
      → AllFine (passing_over r)
  unfolding passing_over
  passing_over-AllFine (refused reason) h es made = ground arith
  passing_over-AllFine (read more) h es made =
      subst (All Fine) (ap contents made) (keep-Fine more (h more refl))

  read_log-AllFine : (raw : String) → AllFine (read_log p c now raw)
  unfolding read_log
  read_log-AllFine raw es =
      let lines = read_lines (read_record p c now) (split_lines raw) in
      some_of-All Fine (passing_over lines) es (
        passing_over-AllFine lines (λ more.
          read_lines-All FineIfNamed (read_record p c now) (split_lines raw) more read_record-Fine))

  one-AllFine :
      (e : Event)
      → FineIfNamed e
      → AllFine (if e.message == "" then refused suppressed else read (e ∷ []))
  one-AllFine e h es = elim (Bool-cases (e.message == "")) [
    | inl blank ↦ λ made. ground arith
    | inr named ↦ λ made.
        let same : read (e ∷ []) ≡ read es = ground arith in
        subst (All Fine) (ap contents same) (h (λ blank. ground (arith, eq_iff e.message "")), tt)
  ]

  -- At a clock reading that is a time, every event that a body of Vault's audit log is read as has a
  -- message, and is accepted as it is by validation at any later reading if the timestamp that it
  -- took is a time, and else refused for that.
  pub normalize_vault_audit_many_validated :
      (body : String) (es : List Event)
      → normalize_vault_audit_many p c now body ≡ read es
      → All
          (λ e.
            (e.message ≢ "")
            × (validate_and_normalize p later e
                ≡ (if p.is_time e.timestamp then ok e else err invalid_timestamp)))
          es
  unfolding normalize_vault_audit_many
  normalize_vault_audit_many_validated body =
      let raw = trim_space body in
      let log = read_log-AllFine raw in
      if_both AllFine (raw == "") _ _ (λ es made. ground arith)
        (if_both AllFine (starts_with raw "[") _ _
          (case_both AllFine (p.unmarshal_array raw) (refused not_json)
            (λ rows. passing_over (read_rows (read_record p c now) rows))
            (λ no_array es made. ground arith)
            (λ rows decoded.
              passing_over-AllFine (read_rows (read_record p c now) rows)
                (λ es. read_rows-All FineIfNamed (read_record p c now) rows es read_record-Fine)))
          (if_both AllFine (starts_with raw "{") _ _
            (case_both AllFine (normalize_vault_audit p c now raw)
              (if contains raw "\n" then read_log p c now raw else refused not_json)
              (λ e. if e.message == "" then refused suppressed else read (e ∷ []))
              (λ failed. if_both AllFine (contains raw "\n") _ _ log (λ es made. ground arith))
              (λ e found. one-AllFine e (normalize_vault_audit-Fine raw e found)))
            log))
