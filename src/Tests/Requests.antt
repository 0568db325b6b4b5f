-- ===== src/Tests/Requests.antt =====
-- What the theorems on the receivers and the handlers say of the collector in miniature.
use text.Mathlib.Text.{starts_with}
use dmz_collector.Base.{
  true, false, [], ◌∷◌, none, some, Map, ◌≡◌, ◌≢◌, refl, arith, All, if◌then◌else◌, ◌==◌, eq_iff,
  lookup, member,
}
use dmz_collector.Text.{trim_space, to_lower, contains, trim_slashes}
use dmz_collector.Text.Parts.{trim_path, trim_prefix, underscored, collapsed}
use dmz_collector.Value.{Value, str, obj, entries, of_entries}
use dmz_collector.Event.{Platform, Event, ensure_defaults}
use dmz_collector.Normalizer.{validate_and_normalize, ok, err, invalid_timestamp}
use dmz_collector.Receivers.{read}
use dmz_collector.Receivers.Json.{string_any, first_of, first_string}
use dmz_collector.Receivers.Mask.{mask_map, mask_fields}
use dmz_collector.Receivers.Vault.Classify.{classify_vault_audit}
use dmz_collector.Receivers.OpcuaDmz.{
  normalize_event, event_of, event_type_of, build_event, class_of, message_of, redacted,
}
use dmz_collector.Receivers.OpcuaDmz.Words.{looks_like_secret, is_sensitive_key, normalize_message}
use dmz_collector.Receivers.OpcuaDmz.Clean.{IsClean, normalize_event-IsClean}
use dmz_collector.Receivers.Gds.Facade.{build_facade_event}
use dmz_collector.Receivers.Gds.Clean as Facade
use dmz_collector.Receivers.Gds.Clean.{build_facade_event_lem}
use dmz_collector.Receivers.Vault.{audit_event, normalize_vault_audit, normalize_vault_audit_many}
use dmz_collector.Receivers.Vault.Record.{class_of_record}
use dmz_collector.Receivers.Vault.Many.{normalize_vault_audit_many_validated}
use dmz_collector.Tests.{platform, codec, noon, evening}

-- A record of the gateway, with a secret in it.
abbrev gateway_record : Map Value
gateway_record =
    ("message", str "opcua_dmz_pki_load_failed")
    ∷ ("raw", obj (of_entries (("detail", str "bearer abcdef") ∷ ("token", str "x") ∷ [])))
    ∷ []

abbrev gateway : Platform
gateway = record platform {
  unmarshal_object = λ s. if s == "{}" then some gateway_record else none;
}

abbrev gateway_event : Event
gateway_event = event_of gateway codec noon gateway_record

decoded_gateway : normalize_event gateway codec noon "{}" ≡ some gateway_event
unfolding normalize_event
decoded_gateway = refl

gateway_message : gateway_event.message ≡ "opcua_dmz_pki_load_failed"
unfolding event_of build_event ensure_defaults class_of message_of redacted mask_map mask_fields
    is_sensitive_key looks_like_secret member contains collapsed to_lower trim_space entries
    of_entries lookup first_string first_of string_any normalize_message underscored
gateway_message = refl

plain_message : looks_like_secret (event_type_of gateway_event.message) ≡ false
unfolding looks_like_secret event_type_of trim_prefix contains to_lower
plain_message = rw gateway_message refl

normalize_event-IsClean_example :
    IsClean gateway_event.tags
    × IsClean gateway_event.extra_fields
    × ((safe : Map Value) × (gateway_event.raw ≡ codec.object_text safe) × IsClean safe)
normalize_event-IsClean_example =
    normalize_event-IsClean gateway codec noon "{}" gateway_event decoded_gateway plain_message

-- A record of Vault's log about a refused login.
abbrev login : Map Value
login =
    ("type", str "response")
    ∷ ("error", str "permission denied")
    ∷ ("time", str noon)
    ∷ ("request", obj (of_entries (("path", str "auth/userpass/login/ann") ∷ [])))
    ∷ []

abbrev vault : Platform
vault = record platform { unmarshal_object = λ s. if s == "{}" then some login else none }

abbrev vault_event : Event
vault_event = audit_event vault codec noon "{}" login (class_of_record vault login)

read_vault : normalize_vault_audit_many vault codec noon "{}" ≡ read (vault_event ∷ [])
unfolding normalize_vault_audit_many normalize_vault_audit trim_space audit_event
    classify_vault_audit to_lower string_any lookup trim_path trim_slashes entries of_entries
    contains ensure_defaults
read_vault = refl

normalize_vault_audit_many_validated_example :
    All
      (λ e.
        (e.message ≢ "")
        × (validate_and_normalize vault evening e
            ≡ (if vault.is_time e.timestamp then ok e else err invalid_timestamp)))
      (vault_event ∷ [])
normalize_vault_audit_many_validated_example =
    normalize_vault_audit_many_validated vault codec noon evening (ground (arith, eq_iff noon ""))
      refl "{}" (vault_event ∷ []) read_vault

-- A record of the facade of GDS, with a secret in its raw object.
abbrev denied : Map Value
denied =
    ("message", str "gds_opcua_method_denied")
    ∷ ("raw", obj (of_entries (("reason", str "bearer abcdef") ∷ ("token", str "x") ∷ [])))
    ∷ []

build_facade_event_lem_example :
    let e = build_facade_event platform codec noon denied in
    Facade.IsClean e.extra_fields
    × ((safe : Map Value) × (e.raw ≡ codec.object_text safe) × Facade.IsClean safe)
    × (starts_with e.message "gds_opcua_" ≡ true)
build_facade_event_lem_example = build_facade_event_lem platform codec noon denied
