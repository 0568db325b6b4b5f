-- ===== src/Receivers/Gds/Clean.antt =====
-- What buildGDSOPCUAFacadeEvent of internal/ingest/gds_events.go lets through.
use text.Mathlib.Text.{starts_with}
use dmz_collector.Base.{
  String, Bool, true, false, List, [], ◌∷◌, some, Map, lookup, ◌≡◌, refl, arith, Bool-cases, not,
  ◌||◌, all, case_both, inl, inr, ◌==◌, member,
}
use dmz_collector.Text.{to_lower, trim_space, contains}
use dmz_collector.Text.Parts.{collapsed}
use dmz_collector.Value.{Value, str}
use dmz_collector.Event.{Platform, ensure_defaults}
use dmz_collector.Disk.{Codec}
use dmz_collector.Receivers.Json.{map_any, compact_map}
use dmz_collector.Receivers.Mask.{clean_map, clean}
use dmz_collector.Receivers.Mask.Laws.{mask_map-clean, compact_map-clean, picked-clean}
use dmz_collector.Receivers.Gds.Contract.{Spec, contract_specs, first_canonical, word_of}
use dmz_collector.Receivers.Gds.Facade.{
  Class, metadata_keys, is_sensitive_key, looks_like_secret, redacted, raw_of,
  canonical_facade_message, facade_candidates, extract_facade_message, facade_message,
  classify_facade_message, build_facade_event,
}

-- No sensitive text at any depth, and nothing but the mark under a sensitive key.
abbrev pub IsClean : Map Value → Type 0
IsClean m = clean_map is_sensitive_key looks_like_secret m ≡ true

raw_of-IsClean : (p : Platform) (rec : Map Value) → IsClean (raw_of p rec)
unfolding raw_of redacted looks_like_secret contains to_lower trim_space
raw_of-IsClean p rec =
    mask_map-clean is_sensitive_key looks_like_secret refl (map_any (lookup "raw" rec))

-- A message of the facade is empty or begins as all of them do.
abbrev Named : String → Type 0
Named message = (message == "") || starts_with message "gds_opcua_" ≡ true

canonical_facade_message-Named : (value : String) → Named (canonical_facade_message value)
unfolding canonical_facade_message
canonical_facade_message-Named value =
    elim (Bool-cases (starts_with (word_of value) "gds_opcua_")) [
      | inl named ↦ rw named (ground (arith, named))
      | inr other ↦ rw other refl
    ]

first_canonical-Named :
    (candidates : List String) → Named (first_canonical canonical_facade_message candidates)
unfolding first_canonical
first_canonical-Named [] = refl
first_canonical-Named (candidate ∷ candidates) =
    ground (arith, canonical_facade_message-Named candidate, first_canonical-Named candidates)

extract_facade_message-Named :
    (p : Platform) (rec : Map Value) → Named (extract_facade_message p rec)
unfolding extract_facade_message
extract_facade_message-Named p rec = first_canonical-Named (facade_candidates p rec)

facade_message-starts :
    (p : Platform) (rec : Map Value) → starts_with (facade_message p rec) "gds_opcua_" ≡ true
unfolding facade_message
facade_message-starts p rec = elim (Bool-cases (extract_facade_message p rec == "")) [
  | inl unnamed ↦ rw unnamed refl
  | inr named ↦
      rw named (elim (Bool-cases (starts_with (extract_facade_message p rec) "gds_opcua_")) [
        | inl begins ↦ begins
        | inr other ↦ ground (arith, extract_facade_message-Named p rec, named, other)
      ])
]

-- What the entries of a map pass is passed by what is found in it.
lookup-passes :
    (test : Spec → Bool) (key : String) (s : Spec) (m : Map Spec)
    → all (λ kv. test kv.1) m ≡ true
    → lookup key m ≡ some s
    → test s ≡ true
unfolding lookup
lookup-passes test key s [] h found = ground arith
lookup-passes test key s ((k, t) ∷ m) h found = ground (arith, lookup-passes test key s m)

plain_risks :
    all (λ (kv : String × Spec). not (looks_like_secret kv.1.risk_level)) contract_specs ≡ true
unfolding looks_like_secret contains to_lower trim_space
plain_risks = refl

low_plain : looks_like_secret "LOW" ≡ false
unfolding looks_like_secret contains to_lower trim_space
low_plain = refl

classify_facade_message-plain :
    (message : String) → looks_like_secret (classify_facade_message message).risk_level ≡ false
unfolding classify_facade_message
classify_facade_message-plain message =
    case_both (λ (k : Class). looks_like_secret k.risk_level ≡ false)
      (lookup (to_lower (trim_space message)) contract_specs) _ _ (λ unknown. low_plain)
      (λ s found. ground (
        arith,
        lookup-passes (λ t. not (looks_like_secret t.risk_level)) (to_lower (trim_space message)) s
            contract_specs plain_risks found,
      ))

risk_entry-IsClean :
    (risk : String) → looks_like_secret risk ≡ false → IsClean (("risk_level", str risk) ∷ [])
unfolding clean clean_map is_sensitive_key member collapsed to_lower trim_space
risk_entry-IsClean risk plain = ground (arith, plain)

-- Whatever record the facade sends, the object that the raw text of its event is made from, and the
-- extra fields of the event, hold no sensitive text at any depth and nothing but the mark under a
-- sensitive key, and the event's message begins as all messages of the facade do.
pub build_facade_event_lem :
    (p : Platform) (c : Codec) (now : String) (rec : Map Value)
    → let e = build_facade_event p c now rec in
      IsClean e.extra_fields
      × ((safe : Map Value) × (e.raw ≡ c.object_text safe) × IsClean safe)
      × (starts_with e.message "gds_opcua_" ≡ true)
unfolding build_facade_event ensure_defaults
build_facade_event_lem p c now rec =
    let class = classify_facade_message (facade_message p rec) in
    let clean_raw = raw_of-IsClean p rec in
    (
      picked-clean is_sensitive_key looks_like_secret metadata_keys (raw_of p rec)
          (("risk_level", str class.risk_level) ∷ []) clean_raw
          (risk_entry-IsClean class.risk_level
            (classify_facade_message-plain (facade_message p rec))),
      (
        compact_map (raw_of p rec),
        refl,
        compact_map-clean is_sensitive_key looks_like_secret (raw_of p rec) clean_raw,
      ),
      facade_message-starts p rec,
    )
