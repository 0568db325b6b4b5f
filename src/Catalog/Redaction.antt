-- ===== src/Catalog/Redaction.antt =====
-- What redactMap of internal/sourcecatalog/catalog.go leaves to be seen.
use dmz_collector.Base.{
  String, false, ◌≡◌, refl, sym, subst, if◌then◌else◌, arith, Bool-cases, inl, inr,
}
use dmz_collector.Text.{contains, to_lower}
use dmz_collector.Value.{Value, null, bool, num, str, arr, obj, Fields, no_fields, field}
use dmz_collector.Catalog.Redact.{
  redacted, looks_sensitive_key, looks_sensitive_value, redact_value, redact_fields,
}

-- Nothing sensitive is left: no text that looks sensitive, and under a key that looks sensitive
-- nothing but the mark, at every depth of the objects. Arrays are not looked into.
mutual
  pub IsClean : Value → Type 0
  IsClean (str s) = looks_sensitive_value s ≡ false
  IsClean (obj fs) = AreClean fs
  IsClean null = Unit
  IsClean (bool b) = Unit
  IsClean (num t) = Unit
  IsClean (arr vs) = Unit

  pub AreClean : Fields → Type 0
  AreClean no_fields = Unit
  AreClean (field k v fs) =
      (v ≡ (if looks_sensitive_key k then redacted else v)) × IsClean v × AreClean fs

redacted-IsClean : IsClean redacted
unfolding IsClean looks_sensitive_value contains to_lower
redacted-IsClean = refl

hidden :
    (k : String) (v w : Value)
    → w ≡ (if looks_sensitive_key k then redacted else v)
    → IsClean v
    → (w ≡ (if looks_sensitive_key k then redacted else w)) × IsClean w
hidden k v w e clean = elim (Bool-cases (looks_sensitive_key k)) [
  | inl sensitive ↦ (ground arith, subst IsClean (sym (ground arith)) redacted-IsClean)
  | inr plain ↦ (ground arith, subst IsClean (sym (ground arith)) clean)
]

plain_text : (s : String) → IsClean (redact_value (str s))
unfolding redact_value IsClean
plain_text s = elim (Bool-cases (looks_sensitive_value s)) [
  | inl sensitive ↦ rw (sensitive, redact_value) redacted-IsClean
  | inr plain ↦ rw (plain, redact_value) plain
]

mutual
  unfolding redact_value IsClean

  value-IsClean : (v : Value) → IsClean (redact_value v)
  value-IsClean (str s) = plain_text s
  value-IsClean (obj fs) = fields-AreClean fs
  value-IsClean null = tt
  value-IsClean (bool b) = tt
  value-IsClean (num t) = tt
  value-IsClean (arr vs) = tt

  fields-AreClean : (fs : Fields) → AreClean (redact_fields fs)
  fields-AreClean no_fields = tt
  fields-AreClean (field k v fs) =
      let (mark, clean) =
        hidden k (redact_value v) (if looks_sensitive_key k then redacted else redact_value v) refl
          (value-IsClean v) in
      (mark, clean, fields-AreClean fs)

-- Redacting the tags of an event leaves no text that looks sensitive and nothing but the mark under
-- a key that looks sensitive, at every depth of nested objects (arrays are not looked into).
pub redact_fields-AreClean : (fs : Fields) → AreClean (redact_fields fs)
redact_fields-AreClean fs = fields-AreClean fs
