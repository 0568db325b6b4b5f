-- ===== src/Normalizer/Validate.antt =====
-- What ValidateAndNormalize of internal/normalizer/validator.go accepts and returns.
use dmz_collector.Base.{
  String, true, false, ◌≡◌, refl, ◌≢◌, arith, ◌⊎◌, ◌||◌, inl, inr, Bool-cases, not, ◌==◌, sym, ap,
  ◌∙◌, eq_iff,
}
use dmz_collector.Text.{to_lower, trim_space}
use dmz_collector.Text.Laws.{switch-All}
use dmz_collector.SourceUtil.{normalize_source_type}
use dmz_collector.SourceUtil.Laws.{canonical}
use dmz_collector.Event.{or_default, Platform, Event, ensure_defaults}
use dmz_collector.Event.Defaults.{ensure_defaults-IsComplete}
use dmz_collector.Normalizer.{
  ok, err, invalid_timestamp, apply_source_specific, source_cases, canonical_form, defaulted_form,
  validate_and_normalize,
}

-- At a clock reading that is a time, validation is decided by the timestamp alone: an event that
-- carries one which is no RFC 3339 time is refused with the error of the timestamp, and every other
-- event, one without a timestamp included, is accepted.
pub validate_and_normalize_refuses :
    (p : Platform) (now : String) (e : Event)
    → p.is_time now ≡ true
    → ((e.timestamp ≢ "")
        × (p.is_time e.timestamp ≡ false)
        × (validate_and_normalize p now e ≡ err invalid_timestamp))
      ⊎ (((e.timestamp == "") || p.is_time e.timestamp ≡ true)
          × ((f : Event) × (validate_and_normalize p now e ≡ ok f)))
unfolding validate_and_normalize ensure_defaults
validate_and_normalize_refuses p now e clock = elim (Bool-cases (e.timestamp == "")) [
  | inl unset ↦ rw (unset, clock) (inr (refl, (_, refl)))
  | inr stated ↦ elim (Bool-cases (p.is_time e.timestamp)) [
    | inl time ↦ rw (stated, time) (inr (refl, (_, refl)))
    | inr other ↦ rw (stated, other) (inl (ground (arith, eq_iff e.timestamp ""), refl, refl))
  ]
]

-- What the source-specific step leaves alone.
abbrev Frame : Event → Event → Type 0
Frame d f =
    (f.id ≡ d.id)
    × (f.timestamp ≡ d.timestamp)
    × (f.received_at ≡ d.received_at)
    × (f.source_type ≡ d.source_type)
    × (f.severity ≡ d.severity)
    × (f.message ≡ d.message)

apply_source_specific-Frame :
    (p : Platform) (original : String) (d : Event) → Frame d (apply_source_specific p original d)
unfolding apply_source_specific
apply_source_specific-Frame p original d =
    switch-All (Frame d) d.source_type (source_cases p original d) d
      ((refl, refl, refl, refl, refl, refl), ((refl, refl, refl, refl, refl, refl), tt))
      (refl, refl, refl, refl, refl, refl)

normalize_source_type-ne : (raw : String) → normalize_source_type raw ≢ ""
normalize_source_type-ne raw e = cc (sym (ap (λ t. t == "") e) ∙ differs)
  where
    differs : (normalize_source_type raw == "") ≡ false
    differs = ground (arith, canonical (λ t. not (t == "")) refl raw)

-- An accepted event is fit for the rest of the pipeline: both its times are RFC 3339 times, its
-- source type is the canonical one of what came in, its id is set and is the producer's if there
-- was one, and its message is the producer's.
pub validate_and_normalize_accepts :
    (p : Platform) (now : String) (e f : Event)
    → now ≢ ""
    → p.is_time now ≡ true
    → validate_and_normalize p now e ≡ ok f
    → (p.is_time f.timestamp ≡ true)
      × (p.is_time f.received_at ≡ true)
      × (f.source_type ≡ normalize_source_type e.source_type)
      × (f.id ≢ "")
      × (f.id ≡ or_default e.id f.id)
      × (f.message ≡ e.message)
unfolding validate_and_normalize ensure_defaults
validate_and_normalize_accepts p now e f set clock accepted =
    let d = defaulted_form p now e in
    let c =
      ensure_defaults-IsComplete p now
        (record e { source_type = normalize_source_type e.source_type }) set in
    ground (
      arith,
      apply_source_specific-Frame p (to_lower (trim_space e.source_type)) (canonical_form p now d),
      c.id,
      c.timestamp,
      eq_iff e.id "",
      normalize_source_type-ne e.source_type,
      eq_iff (normalize_source_type e.source_type) "",
    )
