-- ===== src/Receivers/Vault/Audit.antt =====
-- What becomes of one record of Vault's audit log: internal/ingest/vault_audit.go.
use mathlib.Core.Option.{some-injective}
use dmz_collector.Base.{
  String, Bool, true, false, not, ◌&&◌, [], ◌∷◌, some, Map, lookup, insert, ◌≡◌, ◌≢◌, refl, arith,
  if◌then◌else◌, ◌==◌, Bool-cases, inl, inr, keep, subst, sym, lookup-insert, eq_iff, if_both,
}
use dmz_collector.Text.{to_lower, trim_space, equal_fold, switch}
use dmz_collector.Value.{Value, bool, str}
use dmz_collector.SourceUtil.{normalize_source_type}
use dmz_collector.Event.{Platform, Event, ensure_defaults}
use dmz_collector.Event.Defaults.{IsComplete, ensure_defaults-IsComplete}
use dmz_collector.Normalizer.{apply_source_specific, needs_sourcetype}
use dmz_collector.Disk.{Codec}
use dmz_collector.Receivers.Settled.{
  JudgedByTime, settled, validated_as_is, fill_sourcetype-kept, or_default-settled,
}
use dmz_collector.Receivers.Vault.Classify.{
  AuditClass, classify_vault_audit, classify_vault_audit_lem, audit_cases, other_request,
}
use dmz_collector.Receivers.Cases.{first_case, first_case-all}
use dmz_collector.Receivers.Vault.Record.{
  audit_tags, compact_audit_map, is_filled, sourcetype, string_value, map_value,
}
use dmz_collector.Receivers.Vault.{audit_event}

-- A class that is about something, in the collector's own words.
abbrev pub is_named : AuditClass → Bool
is_named a = not (a.message == "") && settled a.category && settled a.severity

named_cases :
    (p op text error display_name audit_type : String)
    → is_named (first_case (audit_cases p op text error display_name audit_type) other_request)
      ≡ true
unfolding settled to_lower trim_space
named_cases p op text error display_name audit_type =
    first_case-all is_named (audit_cases p op text error display_name audit_type) other_request refl
      refl

-- A record is suppressed exactly if it is a request without an error.
pub classify_vault_audit-named :
    (path operation text display_name audit_type : String)
    → (classify_vault_audit path operation text display_name audit_type).message ≢ ""
    → is_named (classify_vault_audit path operation text display_name audit_type) ≡ true
classify_vault_audit-named path operation text display_name audit_type =
    subst (λ a. a.message ≢ "" → is_named a ≡ true)
      (sym (classify_vault_audit_lem path operation text display_name audit_type))
      (if_both (λ a. a.message ≢ "" → is_named a ≡ true) ((audit_type == "request") && (text == ""))
        _ _ (λ named. absurd (named refl))
        (λ _.
          named_cases (to_lower path) (to_lower operation) text (to_lower text) display_name
            audit_type))

lookup-compact :
    (k : String) (v : Value) (m : Map Value)
    → lookup k m ≡ some v
    → is_filled v ≡ true
    → lookup k (compact_audit_map m) ≡ some v
unfolding compact_audit_map lookup
lookup-compact k v [] h f = ground arith
lookup-compact k v ((key, w) ∷ m) h f = elim (Bool-cases (key == k)) [
  | inl here ↦
      let same : w ≡ v = some-injective w v (ground arith) in
      subst (λ (u : Value). lookup k (keep (λ kv. is_filled kv.1) ((key, u) ∷ m)) ≡ some v)
        (sym same) (ground arith)
  | inr other ↦ ground (arith, lookup-compact k v m)
]

vault_type : normalize_source_type "vault" ≡ "vault"
unfolding normalize_source_type to_lower trim_space switch
vault_type = refl

vault_sourcetype : needs_sourcetype (some (str sourcetype)) ≡ false
unfolding needs_sourcetype trim_space equal_fold
vault_sourcetype = refl

abbrev Marked : Map Value → Type 0
Marked tags = lookup "splunk_sourcetype" tags ≡ some (str sourcetype)

Marked-when :
    (b : Bool) (key : String) (v : Value) (tags : Map Value)
    → (key == "splunk_sourcetype") ≡ false
    → Marked tags
    → Marked (if b then insert key v tags else tags)
Marked-when true key v tags h found = simp lookup-insert (ground arith)
Marked-when false key v tags h found = found

Marked-unless :
    (b : Bool) (key : String) (v : Value) (tags : Map Value)
    → (key == "splunk_sourcetype") ≡ false
    → Marked tags
    → Marked (if b then tags else insert key v tags)
Marked-unless true key v tags h found = found
Marked-unless false key v tags h found = simp lookup-insert (ground arith)

audit_tags-sourcetype :
    (p : Platform) (rec : Map Value) (path operation text audit_type : String) (a : AuditClass)
    → lookup "splunk_sourcetype"
        (compact_audit_map (audit_tags p rec path operation text audit_type a))
      ≡ some (str sourcetype)
unfolding audit_tags is_filled trim_space lookup
audit_tags-sourcetype p rec path operation text audit_type a =
    lookup-compact "splunk_sourcetype" (str sourcetype)
      (audit_tags p rec path operation text audit_type a)
      (Marked-unless (text == "") "error" (str text) _ refl (
        Marked-when (string_value p (map_value rec "auth") "display_name" == "root")
          "root_token_used" (bool true) _ refl
          (Marked-when a.alert_candidate "alert_candidate" (bool true) _ refl refl)))
      refl

IsComplete-with_raw :
    (e : Event) (raw : String) → IsComplete e → IsComplete (record e { original_raw = raw })
IsComplete-with_raw e raw c = record {
  id = c.id;
  timestamp = c.timestamp;
  received_at = c.received_at;
  zone = c.zone;
  source_type = c.source_type;
  source = c.source;
  severity = c.severity;
  protocol = c.protocol;
  event_category = c.event_category;
}

module _ (p : Platform) (c : Codec) (now raw : String) (rec : Map Value) (a : AuditClass) where
  abbrev built : Event
  built = audit_event p c now raw rec a

  built-IsComplete : now ≢ "" → IsComplete built
  unfolding audit_event
  built-IsComplete set = IsComplete-with_raw _ raw (ensure_defaults-IsComplete p now _ set)

  built-own : (original : String) → apply_source_specific p original built ≡ built
  unfolding apply_source_specific switch audit_event ensure_defaults
  built-own original =
      let kept : Marked built.tags = audit_tags-sourcetype p rec _ _ _ _ a in
      λ i. record built {
        tags = fill_sourcetype-kept "vault" sourcetype built.tags vault_sourcetype kept i;
      }

  pub built-validated :
      (later : String)
      → now ≢ ""
      → p.is_time now ≡ true
      → is_named a ≡ true
      → JudgedByTime p later built
  unfolding audit_event ensure_defaults
  built-validated later set clock named =
      validated_as_is p later built (built-IsComplete set) vault_type
        (or_default-settled a.severity "info" (ground arith))
        (or_default-settled a.category "unknown" (ground arith)) (ground arith) (built-own _)

  pub built-named : is_named a ≡ true → built.message ≢ ""
  unfolding audit_event ensure_defaults
  built-named named = ground (arith, eq_iff a.message "")
