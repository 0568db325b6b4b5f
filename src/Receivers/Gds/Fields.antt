-- ===== src/Receivers/Gds/Fields.antt =====
-- The fields that internal/ingest/gds_events.go lets through, and what it leaves out as sensitive.
use Prim.Native.String.{len}
use dmz_collector.Base.{
  String, Bool, not, ◌&&◌, ◌||◌, List, [], ◌∷◌, ◌++◌, Option, none, some, Map, lookup, insert,
  if◌then◌else◌, ◌==◌, member, exists, ltb,
}
use dmz_collector.Text.{to_lower, trim_space, contains}
use dmz_collector.Value.{
  Value, null, str, arr, obj, Fields, no_fields, field, Items, no_items, item, entries, of_entries,
}
use dmz_collector.Event.{Platform}
use dmz_collector.Receivers.Json.{map_any, first_string, compact_map, put}
use dmz_collector.Receivers.Jumphost.Build.{put_set}
use dmz_collector.Receivers.Gds.Contract.{parse_raw_text}

-- The words that make a key sensitive.
abbrev pub sensitive : List String
sensitive =
    "token" ∷ "authorization" ∷ "password" ∷ "passwd" ∷ "private_key" ∷ "privatekey" ∷ "key_pem"
    ∷ "pem" ∷ "csr" ∷ "csr_pem" ∷ "certificate_pem" ∷ "certificate_body" ∷ "cert_body"
    ∷ "full_certificate" ∷ "cert_pem" ∷ "ca_chain" ∷ "ca_chain_pem" ∷ "crl" ∷ "crl_body"
    ∷ "crl_base64" ∷ "crl_bundle" ∷ "signature" ∷ "secret" ∷ []

-- isGDSSensitiveKey
unfoldable pub is_sensitive_key : String → Bool
is_sensitive_key key =
    let k = to_lower (trim_space key) in
    not (member k ("crl_name" ∷ "crl_next_update" ∷ "crl_sha256" ∷ []))
    && not (contains k "accessor")
    && exists (contains k) sensitive

-- looksLikeGDSSecret
unfoldable pub looks_like_secret : String → String → Bool
unfolding is_sensitive_key
looks_like_secret key value =
    let lower = to_lower value in
    contains lower "-----begin "
    || contains lower "-----end "
    || contains lower "private key"
    || (ltb 8_192 (len value) && is_sensitive_key key)

-- redactMap: what is sensitive is left out; of an array only the objects are looked into.
unfoldable mutual
  unfolding put is_sensitive_key looks_like_secret

  pub redact_value : String → Value → Option Value
  redact_value k (obj fs) = some (obj (redact_fields fs))
  redact_value k (arr vs) = some (arr (redact_items vs))
  redact_value k (str s) = if looks_like_secret k s then none else some (str s)
  redact_value k v = some v

  pub redact_items : Items → Items
  redact_items no_items = no_items
  redact_items (item (obj fs) vs) = item (obj (redact_fields fs)) (redact_items vs)
  redact_items (item v vs) = item v (redact_items vs)

  pub redact_fields : Fields → Fields
  redact_fields no_fields = no_fields
  redact_fields (field k v fs) =
      put k (if is_sensitive_key k then none else redact_value k v) (redact_fields fs)

unfoldable pub redact_map : Map Value → Map Value
redact_map m = entries (redact_fields (of_entries m))

-- copySafeField, from a key to the same key
unfoldable pub copy_safe_field : String → Map Value → Map Value → Map Value
copy_safe_field key from out =
    if is_sensitive_key key then out else put_set key (lookup key from) out

unfoldable pub copy_safe_fields : List String → Map Value → Map Value → Map Value
unfolding copy_safe_field
copy_safe_fields [] from out = out
copy_safe_fields (key ∷ keys) from out = copy_safe_fields keys from (copy_safe_field key from out)

-- gdsContractTagKeys
abbrev pub contract_tag_keys : List String
contract_tag_keys =
    "method_name" ∷ "method_class" ∷ "application_uri" ∷ "decision" ∷ "reason" ∷ "result_code"
    ∷ "duration_ms" ∷ "opcua_session_id" ∷ "vault_mount" ∷ "crl_name" ∷ "crl_next_update"
    ∷ "crl_sha256" ∷ "threshold_hours" ∷ "expiry" ∷ "target" ∷ "trustlist_zone" ∷ "trustlist_role"
    ∷ "artifact_revision" ∷ "artifact_sha256" ∷ "runtime_instance_id" ∷ "status" ∷ "correlation_id"
    ∷ "gds_action" ∷ "gds_family" ∷ "log_message" ∷ []

-- The keys that gdsSafeFields copies from a record, from its raw object and from its details.
abbrev pub own_keys : List String
own_keys =
    "event_type" ∷ "gds_family" ∷ "gds_action" ∷ "actor" ∷ "target" ∷ "application_uri"
    ∷ "runtime_instance_id" ∷ "package_id" ∷ "request_id" ∷ "certificate_id" ∷ "fingerprint_sha256"
    ∷ "certificate_fingerprint_sha256" ∷ "serial_number" ∷ "trustlist_zone" ∷ "trustlist_role"
    ∷ "trustlist_version" ∷ "artifact_revision" ∷ "artifact_sha256" ∷ "error_code"
    ∷ "correlation_id" ∷ "source_ip" ∷ "client_ip" ∷ "user_agent" ∷ "http_method" ∷ "http_path"
    ∷ "http_status" ∷ "endpoint_family" ∷ "mtls_verify_status" ∷ "logger" ∷ "level" ∷ "status"
    ∷ "component" ∷ "generated_at" ∷ "created_at" ∷ "reported_at" ∷ "table" ∷ "row_count"
    ∷ "latest_id" ∷ "latest_created_at" ∷ "latest_updated_at" ∷ "db_connected" ∷ "checks"
    ∷ "postgres" ∷ "tables" ∷ "reason" ∷ "error" ∷ "line" ∷ []

abbrev pub raw_keys : List String
raw_keys =
    "event_type" ∷ "actor" ∷ "target" ∷ "application_uri" ∷ "runtime_instance_id" ∷ "package_id"
    ∷ "request_id" ∷ "certificate_id" ∷ "fingerprint_sha256" ∷ "certificate_fingerprint_sha256"
    ∷ "serial_number" ∷ "trustlist_zone" ∷ "trustlist_role" ∷ "trustlist_version"
    ∷ "artifact_revision" ∷ "artifact_sha256" ∷ "error_code" ∷ "correlation_id" ∷ "source_ip"
    ∷ "mtls_verify_status" ∷ "status" ∷ "component" ∷ "generated_at" ∷ "created_at" ∷ "reported_at"
    ∷ "table" ∷ "row_count" ∷ "latest_id" ∷ "latest_created_at" ∷ "latest_updated_at"
    ∷ "db_connected" ∷ "checks" ∷ "postgres" ∷ "tables" ∷ "log_message" ∷ "gds_action"
    ∷ "gds_family" ∷ []

abbrev pub detail_keys : List String
detail_keys =
    "application_uri" ∷ "runtime_instance_id" ∷ "package_id" ∷ "request_id" ∷ "certificate_id"
    ∷ "fingerprint_sha256" ∷ "certificate_fingerprint_sha256" ∷ "serial_number" ∷ "trustlist_zone"
    ∷ "trustlist_role" ∷ "trustlist_version" ∷ "artifact_revision" ∷ "artifact_sha256"
    ∷ "error_code" ∷ "correlation_id" ∷ "source_ip" ∷ "mtls_verify_status" ∷ "reason" ∷ "status"
    ∷ []

-- gdsSafeFields
unfoldable pub safe_fields : Map Value → Map Value
unfolding copy_safe_fields redact_map
safe_fields rec =
    let own = copy_safe_fields contract_tag_keys rec (copy_safe_fields own_keys rec []) in
    let with_raw : Map Value = elim (map_any (lookup "raw" rec)) [
      | [] ↦ own
      | kv ∷ raw ↦ copy_safe_fields (raw_keys ++ contract_tag_keys) (kv ∷ raw) own
    ] in
    compact_map (elim (map_any (lookup "details_json" rec)) [
      | [] ↦ with_raw
      | kv ∷ details ↦
          (let redacted = redact_map (kv ∷ details) in
            insert "details_json" (obj (of_entries (compact_map redacted)))
              (copy_safe_fields detail_keys redacted with_raw))
    ])

-- The first of some values that is there and no null.
unfoldable pub first_set : List (Option Value) → Option Value
first_set [] = none
first_set (none ∷ vs) = first_set vs
first_set (some null ∷ vs) = first_set vs
first_set (some v ∷ vs) = some v

unfoldable pub promoted : String → Map Value → Map Value → Map Value → Map Value → Map Value
unfolding first_set
promoted key rec raw incoming tags = elim (lookup key tags) [
  | some old ↦ tags
  | none ↦
      if is_sensitive_key key
      then tags
      else (elim (first_set (lookup key raw ∷ lookup key incoming ∷ lookup key rec ∷ [])) [
        | none ↦ tags
        | some v ↦ insert key v tags
      ])
]

-- promoteGDSContractTags, over the keys of a list
unfoldable pub promote_tags : List String → Map Value → Map Value → Map Value → Map Value
unfolding promoted
promote_tags [] rec raw tags = tags
promote_tags (key ∷ keys) rec raw tags =
    promote_tags keys rec raw (promoted key rec raw (map_any (lookup "tags" rec)) tags)

module _ (p : Platform) where
  -- What extractOriginalGDSRaw makes of a raw text.
  unfoldable pub original_of_text : String → Map Value
  original_of_text text = elim (p.unmarshal_object text) [
    | some fields ↦ compact_map fields
    | none ↦
        (let message = parse_raw_text p text in
          ("log_message", str (if message == "" then text else message)) ∷ [])
  ]

  -- What it makes of a record without a raw text or object.
  unfoldable pub original_of_message : Map Value → Map Value
  original_of_message rec =
      let message = trim_space (first_string p rec ("log_message" ∷ [])) in
      if message == "" then [] else ("log_message", str message) ∷ []

  -- extractOriginalGDSRaw; encoding/json refuses the empty text.
  unfoldable pub original_raw_of : Map Value → Map Value
  unfolding original_of_text original_of_message
  original_raw_of rec = elim (lookup "raw" rec) [
    | some (str s) ↦ original_of_text (trim_space s)
    | some (obj fs) ↦ compact_map (entries fs)
    | _ ↦ original_of_message rec
  ]
