-- ===== src/Receivers/Jumphost/Kept.antt =====
-- What redaction leaves of a record of the jump host (internal/ingest/jumphost_events.go) stays clean
-- while its fields are read and completed.
use dmz_collector.Base.{
  String, Bool, true, false, List, [], ◌∷◌, Option, none, some, Map, lookup, insert, ◌≡◌, refl,
  arith, ◌==◌, ◌∙◌, case_both, if_both, and-left, and-right,
}
use dmz_collector.Text.{to_lower, trim_space, contains}
use dmz_collector.Text.Parts.{collapsed}
use dmz_collector.Value.{Value, null, bool, num, str, arr, obj, of_entries}
use dmz_collector.Event.{Platform}
use dmz_collector.Receivers.Json.{map_any, string_any}
use dmz_collector.Receivers.Mask.{mask, clean, clean_entry, clean_map}
use dmz_collector.Receivers.Mask.Laws.{
  insert-clean, lookup-clean, mask_map-clean, mask-clean, clean_fields-entries,
  clean_map-of_entries,
}
use dmz_collector.Receivers.Jumphost.Words.{is_sensitive_key, looks_like_secret}
use dmz_collector.Receivers.Jumphost.Ssh.{Pattern, fields_from_syslog_message}
use dmz_collector.Receivers.Jumphost.Build.{put_set, put_set-either, put_metadata, extra_fields}
use dmz_collector.Receivers.Jumphost.{
  redacted, put_all, put_new, Parsed, ensure_raw_field, raw_fields, opened, ssh_line_from_payload,
  with_ssh_line, parsed_of,
}

-- No sensitive text at any depth, and nothing but the mark under a sensitive key.
abbrev pub IsClean : Map Value → Type 0
IsClean m = clean_map is_sensitive_key looks_like_secret m ≡ true

abbrev entry : String → Value → Bool
entry = clean_entry is_sensitive_key looks_like_secret

fair : looks_like_secret "[REDACTED]" ≡ false
unfolding looks_like_secret contains to_lower trim_space
fair = refl

pub redacted-IsClean : (m : Map Value) → IsClean (redacted m)
unfolding redacted
redacted-IsClean m = mask_map-clean is_sensitive_key looks_like_secret fair m

pub insert-IsClean :
    (k : String) (v : Value) (m : Map Value) → entry k v ≡ true → IsClean m → IsClean (insert k v m)
insert-IsClean k v m = insert-clean is_sensitive_key looks_like_secret k v m

found-clean :
    (k : String) (m : Map Value) (v : Value) → IsClean m → lookup k m ≡ some v → entry k v ≡ true
found-clean k m v = lookup-clean is_sensitive_key looks_like_secret k v m

put_set-IsClean :
    (key : String) (m out : Map Value)
    → IsClean m
    → IsClean out
    → IsClean (put_set key (lookup key m) out)
put_set-IsClean key m out c o =
    put_set-either IsClean key (lookup key m) out o
      (λ v there. insert-IsClean key v out (found-clean key m v c there) o)

pub put_metadata-IsClean :
    (keys : List String) (raw rec tags : Map Value)
    → IsClean raw
    → IsClean rec
    → IsClean tags
    → IsClean (put_metadata keys raw rec tags)
unfolding put_metadata
put_metadata-IsClean [] raw rec tags r c t = t
put_metadata-IsClean (key ∷ keys) raw rec tags r c t =
    put_metadata-IsClean keys raw rec _ r c
      (put_set-IsClean key rec _ c (put_set-IsClean key raw tags r t))

pub extra_fields-IsClean :
    (keys : List String) (tags out : Map Value)
    → IsClean tags
    → IsClean out
    → IsClean (extra_fields keys tags out)
unfolding extra_fields
extra_fields-IsClean [] tags out t o = o
extra_fields-IsClean (key ∷ keys) tags out t o =
    extra_fields-IsClean keys tags _ t (put_set-IsClean key tags out t o)

put_all-IsClean :
    (fields out : Map Value) → IsClean fields → IsClean out → IsClean (put_all fields out)
unfolding put_all clean_map
put_all-IsClean [] out f o = o
put_all-IsClean ((k, v) ∷ fields) out f o =
    put_all-IsClean fields _ (and-right (entry k v) _ f) (insert-IsClean k v out (and-left _ _ f) o)

put_new-IsClean :
    (k : String) (v : Value) (m : Map Value)
    → entry k v ≡ true
    → IsClean m
    → IsClean (put_new k v m)
unfolding put_new
put_new-IsClean k v m h c =
    case_both IsClean (lookup k m) (insert k v m) (λ old. m) (λ new. insert-IsClean k v m h c)
      (λ old there. c)

-- The fields in the course of the normalization are clean.
pub record Kept (s : Parsed) : Type 0 where
  pub rec : IsClean s.rec
  pub raw : IsClean s.raw

parser_hint-clean : entry "parser_hint" (str "sshd_auth_log") ≡ true
unfolding is_sensitive_key looks_like_secret clean contains collapsed to_lower trim_space
parser_hint-clean = refl

raw_key : is_sensitive_key "raw" ≡ false
unfolding is_sensitive_key contains collapsed to_lower trim_space
raw_key = refl

map_any-IsClean :
    (v : Option Value)
    → ((w : Value) → v ≡ some w → clean is_sensitive_key looks_like_secret w ≡ true)
    → IsClean (map_any v)
unfolding clean clean_map
map_any-IsClean none h = refl
map_any-IsClean (some (obj fs)) h =
    clean_fields-entries is_sensitive_key looks_like_secret fs ∙ h (obj fs) refl
map_any-IsClean (some null) h = refl
map_any-IsClean (some (bool b)) h = refl
map_any-IsClean (some (num t)) h = refl
map_any-IsClean (some (str t)) h = refl
map_any-IsClean (some (arr vs)) h = refl

raw-IsClean : (rec : Map Value) → IsClean rec → IsClean (map_any (lookup "raw" rec))
raw-IsClean rec c =
    map_any-IsClean (lookup "raw" rec)
      (λ w there. ground (arith, raw_key, found-clean "raw" rec w c there))

detail_key : is_sensitive_key "detail" ≡ false
unfolding is_sensitive_key contains collapsed to_lower trim_space
detail_key = refl

detail-IsClean : (v : Value) → IsClean (("detail", mask is_sensitive_key looks_like_secret v) ∷ [])
unfolding clean_map
detail-IsClean v = ground (arith, detail_key, mask-clean is_sensitive_key looks_like_secret fair v)

redacted_or-IsClean :
    (m d : Map Value) → IsClean d → IsClean (elim m [ [] ↦ d | kv ∷ raw ↦ redacted (kv ∷ raw) ])
redacted_or-IsClean [] d c = c
redacted_or-IsClean (kv ∷ raw) d c = redacted-IsClean (kv ∷ raw)

raw_fields-IsClean : (p : Platform) (rec : Map Value) → IsClean (raw_fields p rec)
unfolding raw_fields
raw_fields-IsClean p rec =
    let text = trim_space (string_any p (lookup "raw" rec)) in
    redacted_or-IsClean (map_any (lookup "raw" rec)) _ (
      if_both IsClean (text == "") _ _ (redacted-IsClean _) (
        case_both IsClean (p.unmarshal_object text) _ redacted
          (λ no_object. detail-IsClean (str text)) (λ fields decoded. redacted-IsClean fields)))

hinted-IsClean :
    (m rec : Map Value)
    → IsClean m
    → IsClean rec
    → IsClean (elim m [
      | [] ↦ rec
      | kv ∷ inner ↦
          insert "raw"
            (obj (of_entries (put_new "parser_hint" (str "sshd_auth_log") (kv ∷ inner))))
            rec
    ])
unfolding clean
hinted-IsClean [] rec c r = r
hinted-IsClean (kv ∷ inner) rec c r =
    let hinted = put_new "parser_hint" (str "sshd_auth_log") (kv ∷ inner) in
    let kept =
      put_new-IsClean "parser_hint" (str "sshd_auth_log") (kv ∷ inner) parser_hint-clean c in
    insert-IsClean "raw" (obj (of_entries hinted)) rec
      (ground (arith, raw_key, clean_map-of_entries is_sensitive_key looks_like_secret hinted)) r

module _ (submatch : Pattern → String → List String) (p : Platform) where
  with_ssh_line-Kept :
      (line : String) (s : Parsed)
      → IsClean (fields_from_syslog_message submatch line)
      → Kept s
      → Kept (with_ssh_line submatch p line s)
  unfolding with_ssh_line ensure_raw_field
  with_ssh_line-Kept line s plain k = record {
    rec = hinted-IsClean (map_any (lookup "raw" s.rec)) s.rec (raw-IsClean s.rec k.rec) k.rec;
    raw =
        put_new-IsClean "parser_hint" (str "sshd_auth_log") _ parser_hint-clean
          (put_all-IsClean (fields_from_syslog_message submatch line) s.raw plain k.raw);
  }

  opened-Kept : (fields : Map Value) → Kept (opened submatch p fields)
  unfolding opened
  opened-Kept fields = record {
    rec = redacted-IsClean fields;
    raw = raw_fields-IsClean p (redacted fields);
  }

  -- What the patterns pick out of the line of sshd that a record holds.
  abbrev pub picked : Map Value → Map Value
  picked fields =
      let s = opened submatch p fields in
      fields_from_syslog_message submatch (ssh_line_from_payload p s.rec s.raw)

  pub parsed_of-Kept :
      (fields : Map Value) → IsClean (picked fields) → Kept (parsed_of submatch p fields)
  unfolding parsed_of
  parsed_of-Kept fields plain =
      let s = opened submatch p fields in
      let line = ssh_line_from_payload p s.rec s.raw in
      let k =
        if_both Kept (line == "") s (with_ssh_line submatch p line s) (opened-Kept fields)
          (with_ssh_line-Kept line s plain (opened-Kept fields)) in
      record { rec = k.rec; raw = k.raw }
