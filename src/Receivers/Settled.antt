-- ===== src/Receivers/Settled.antt =====
-- When ValidateAndNormalize of internal/normalizer/validator.go leaves an event of a receiver alone.
use dmz_collector.Base.{
  String, Bool, true, false, not, ◌&&◌, List, [], ◌∷◌, Option, none, some, Map, lookup, ◌≡◌, ◌≢◌,
  refl, arith, if◌then◌else◌, ◌==◌, ap, ◌∙◌, member, Bool-cases, inl, inr, ◌||◌, all, eq_iff,
  lookup-insert,
}
use dmz_collector.Text.{to_lower, trim_space}
use dmz_collector.SourceUtil.{normalize_source_type}
use dmz_collector.Value.{Value, str}
use dmz_collector.Event.{Platform, Event, ensure_defaults, or_default}
use dmz_collector.Event.Defaults.{IsComplete, ensure_defaults_of_IsComplete}
use dmz_collector.Normalizer.{
  validate_and_normalize, canonical_form, defaulted_form, apply_source_specific, ok, err,
  invalid_timestamp, fill_sourcetype, needs_sourcetype,
}
use dmz_collector.Receivers.Json.{picked, taken}

-- A text that is set and that trimming and lowering leave alone.
unfoldable pub settled : String → Bool
settled s = (to_lower (trim_space s) == s) && not (s == "")

pub settled-form : (s : String) → settled s ≡ true → to_lower (trim_space s) ≡ s
unfolding settled
settled-form s h = ground (arith, eq_iff (to_lower (trim_space s)) s)

pub settled-ne : (s : String) → settled s ≡ true → s ≢ ""
unfolding settled
settled-ne s h = ground (arith, eq_iff s "")

pub member-all :
    (p : String → Bool) (w : String) (keys : List String)
    → all p keys ≡ true
    → member w keys ≡ true
    → p w ≡ true
unfolding member
member-all p w [] h m = ground arith
member-all p w (k ∷ keys) h m = ground (arith, eq_iff k w, member-all p w keys)

-- A word that is looked for in a list of settled words comes out empty or settled, also where one
-- more word is read as a warning.
pub listed-settled :
    (w : String) (words : List String)
    → all settled words ≡ true
    → ((if member w words then w else "") == "") || settled (if member w words then w else "")
      ≡ true
listed-settled w words h = elim (Bool-cases (member w words)) [
  | inl listed ↦ rw listed (ground (arith, member-all settled w words h listed))
  | inr other ↦ rw other refl
]

warning_settled : settled "warning" ≡ true
unfolding settled to_lower trim_space
warning_settled = refl

pub listed_or_warn-settled :
    (w : String) (words : List String)
    → all settled words ≡ true
    → let v = if member w words then w else if w == "warn" then "warning" else "" in
      (v == "") || settled v ≡ true
listed_or_warn-settled w words h = elim (Bool-cases (member w words)) [
  | inl listed ↦ rw listed (ground (arith, member-all settled w words h listed))
  | inr other ↦ rw other (elim (Bool-cases (w == "warn")) [
    | inl warn ↦ rw warn warning_settled
    | inr plain ↦ rw plain refl
  ])
]

-- A word that was stated is taken if it is settled and no other comes first.
pub stated-settled :
    (stated other : String) (first : Bool)
    → (stated == "") || settled stated ≡ true
    → settled other ≡ true
    → settled (if (stated == "") || first then other else stated) ≡ true
stated-settled stated other first s o = ground arith

lookup-taken :
    (k key : String) (o : Option Value) (out : Map Value)
    → (key == k) ≡ false
    → lookup k (taken key o out) ≡ lookup k out
unfolding taken
lookup-taken k key none out h = refl
lookup-taken k key (some v) out h = simp lookup-insert (ground arith)

-- Copying other keys leaves a key alone.
pub lookup-picked :
    (k : String) (keys : List String) (rec out : Map Value)
    → member k keys ≡ false
    → lookup k (picked keys rec out) ≡ lookup k out
unfolding member picked
lookup-picked k [] rec out h = refl
lookup-picked k (key ∷ keys) rec out h =
    lookup-picked k keys rec (taken key (lookup key rec) out) (ground arith)
    ∙ lookup-taken k key (lookup key rec) out (ground arith)

defaulted-same :
    (p : Platform) (now : String) (e : Event)
    → IsComplete e
    → normalize_source_type e.source_type ≡ e.source_type
    → defaulted_form p now e ≡ e
unfolding defaulted_form
defaulted-same p now e complete canonical =
    ap (λ (t : String). ensure_defaults p now (record e { source_type = t })) canonical
    ∙ ensure_defaults_of_IsComplete p now e complete

canonical-same :
    (p : Platform) (now : String) (e : Event)
    → settled e.severity ≡ true
    → settled e.event_category ≡ true
    → p.is_time e.received_at ≡ true
    → canonical_form p now e ≡ e
unfolding canonical_form
canonical-same p now e severity category received =
    let kept : (if p.is_time e.received_at then e.received_at else now) ≡ e.received_at =
      ground arith in
    λ i. record e {
      received_at = kept i;
      severity = settled-form e.severity severity i;
      event_category = settled-form e.event_category category i;
    }

-- Validation accepts the event as it is if its timestamp is a time, and else refuses it for that.
abbrev pub JudgedByTime : Platform → String → Event → Type 0
JudgedByTime p now e =
    validate_and_normalize p now e ≡ (if p.is_time e.timestamp then ok e else err invalid_timestamp)

-- An event with all its fields, a settled severity and category, a canonical source type and a
-- received time that is one, and which its source's own rules leave alone, is judged by its
-- timestamp alone.
pub validated_as_is :
    (p : Platform) (now : String) (e : Event)
    → IsComplete e
    → normalize_source_type e.source_type ≡ e.source_type
    → settled e.severity ≡ true
    → settled e.event_category ≡ true
    → p.is_time e.received_at ≡ true
    → apply_source_specific p (to_lower (trim_space e.source_type)) e ≡ e
    → JudgedByTime p now e
unfolding validate_and_normalize
validated_as_is p now e complete canonical severity category received own =
    rw (defaulted-same p now e complete canonical) (
      ap (λ (f : Event). if p.is_time e.timestamp then ok f else err invalid_timestamp)
        (ap (λ (f : Event). apply_source_specific p (to_lower (trim_space e.source_type)) f)
            (canonical-same p now e severity category received)
          ∙ own))

pub fill_sourcetype-kept :
    (source_type t : String) (tags : Map Value)
    → needs_sourcetype (some (str t)) ≡ false
    → lookup "splunk_sourcetype" tags ≡ some (str t)
    → fill_sourcetype source_type tags ≡ tags
unfolding fill_sourcetype
fill_sourcetype-kept source_type t tags own h = rw h (rw own refl)

pub or_default-settled : (v d : String) → settled v ≡ true → settled (or_default v d) ≡ true
unfolding settled
or_default-settled v d h = ground arith
