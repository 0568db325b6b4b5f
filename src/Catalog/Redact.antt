-- ===== src/Catalog/Redact.antt =====
-- The redaction of events in internal/sourcecatalog/catalog.go.
use dmz_collector.Base.{String, Bool, [], ◌∷◌, some, Map, lookup, insert, if◌then◌else◌, exists}
use dmz_collector.Text.{to_lower, contains}
use dmz_collector.Value.{Value, str, obj, Fields, no_fields, field}
use dmz_collector.Event.{Event, to_map}

abbrev pub redacted : Value
redacted = str "[redacted]"

unfoldable pub looks_sensitive_key : String → Bool
looks_sensitive_key key = exists (contains (to_lower key)) (
    "token" ∷ "secret" ∷ "password" ∷ "private" ∷ "key" ∷ "cert" ∷ "certificate" ∷ "crl" ∷ "role_id"
    ∷ "secret_id" ∷ "vault" ∷ [])

unfoldable pub looks_sensitive_value : String → Bool
looks_sensitive_value value = exists (contains (to_lower value)) (
    "-----begin" ∷ "-----end" ∷ "token" ∷ "secret" ∷ "password" ∷ "private key" ∷ "certificate"
    ∷ "crl" ∷ [])

-- redactMap: texts and objects are looked into, arrays are not.
unfoldable mutual
  pub redact_value : Value → Value
  redact_value (str s) = if looks_sensitive_value s then redacted else str s
  redact_value (obj fs) = obj (redact_fields fs)
  redact_value v = v

  pub redact_fields : Fields → Fields
  redact_fields no_fields = no_fields
  redact_fields (field k v fs) =
      field k (if looks_sensitive_key k then redacted else redact_value v) (redact_fields fs)

redact_tags : Map Value → Map Value
redact_tags m = elim (lookup "tags" m) [
  | some (obj fs) ↦ insert "tags" (obj (redact_fields fs)) m
  | _ ↦ m
]

unfoldable pub redact_event_for_ui : Event → Map Value
unfolding redact_tags
redact_event_for_ui ev = redact_tags (insert "raw" redacted (to_map ev))
