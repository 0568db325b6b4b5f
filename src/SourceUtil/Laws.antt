-- ===== src/SourceUtil/Laws.antt =====
-- Laws of the source types.
use dmz_collector.Base.{
  String, Bool, true, false, not, List, [], ◌∷◌, ◌≡◌, refl, ◌↔◌, arith, eq_iff, ◌==◌, all, member,
}
use dmz_collector.Text.{to_lower, trim_space, switch}
use dmz_collector.Text.Laws.{switch-all}
use dmz_collector.SourceUtil.{
  aliases, groups, sourcetypes, internal_types, normalize_source_type, group_for_source_type,
  splunk_sourcetype_for, is_internal_dmz_source_type, unknown_sourcetype,
}

-- A test that every canonical name passes is passed by every normalized source type.
pub canonical :
    (p : String → Bool)
    → all (λ c. p c.1) aliases ≡ true
    → (raw : String) → p (normalize_source_type raw) ≡ true
unfolding normalize_source_type
canonical p h raw = switch-all p (to_lower (trim_space raw)) aliases "unknown" h (ground arith)

-- Normalizing a source type a second time changes nothing, whatever text came in.
normalize_source_type_idempotent :
    (raw : String) → normalize_source_type (normalize_source_type raw) ≡ normalize_source_type raw
normalize_source_type_idempotent raw =
    (eq_iff _ _).0 (canonical (λ t. normalize_source_type t == t) tested raw)
  where
    tested : all (λ c. normalize_source_type c.1 == c.1) aliases ≡ true
    tested = unfold normalize_source_type in refl

abbrev iffb : Bool → Bool → Bool
iffb true b = b
iffb false b = not b

iffb_iff : (a b : Bool) → iffb a b ≡ true → (a ≡ true) ↔ (b ≡ true)
iffb_iff a b h = ground arith

-- A source type is an internal one of the DMZ exactly when its group in the catalogue is
-- "DMZ Services", whatever its spelling.
is_internal_iff_group :
    (raw : String)
    → (is_internal_dmz_source_type raw ≡ true) ↔ (group_for_source_type raw ≡ "DMZ Services")
unfolding is_internal_dmz_source_type group_for_source_type
is_internal_iff_group raw =
    let both = iffb_iff _ _ (
      canonical
        (λ t.
          iffb (switch t ((internal_types, true) ∷ []) false)
            (switch t groups "Unknown / Other" == "DMZ Services"))
        refl raw) in
    let same =
      eq_iff (switch (normalize_source_type raw) groups "Unknown / Other") "DMZ Services" in
    (λ h. same.0 (both.0 h), λ h. both.1 (same.1 h))

-- The canonical types that have no sourcetype of their own.
abbrev pub unmapped : List String
unmapped = "unknown" ∷ "collector" ∷ "manual_test" ∷ []

-- The sourcetype of a source is the placeholder exactly when its canonical type is "unknown",
-- "collector" or "manual_test".
sourcetype_unknown_iff :
    (raw : String)
    → (splunk_sourcetype_for raw ≡ unknown_sourcetype)
      ↔ (member (normalize_source_type raw) unmapped ≡ true)
unfolding splunk_sourcetype_for
sourcetype_unknown_iff raw =
    let both = iffb_iff _ _ (
      canonical
        (λ t.
          iffb (switch t sourcetypes unknown_sourcetype == unknown_sourcetype) (member t unmapped))
        refl raw) in
    let same =
      eq_iff (switch (normalize_source_type raw) sourcetypes unknown_sourcetype)
        unknown_sourcetype in
    (λ h. both.0 (same.1 h), λ h. same.0 (both.1 h))

-- Whatever text a source type comes in as: normalizing it a second time changes nothing; it is an
-- internal one of the DMZ exactly when its group in the catalogue is "DMZ Services"; and its
-- sourcetype is the placeholder exactly when its canonical type is "unknown", "collector" or
-- "manual_test".
pub normalize_source_type_lem :
    (raw : String)
    → (normalize_source_type (normalize_source_type raw) ≡ normalize_source_type raw)
      × ((is_internal_dmz_source_type raw ≡ true) ↔ (group_for_source_type raw ≡ "DMZ Services"))
      × ((splunk_sourcetype_for raw ≡ unknown_sourcetype)
          ↔ (member (normalize_source_type raw) unmapped ≡ true))
normalize_source_type_lem raw =
    (normalize_source_type_idempotent raw, is_internal_iff_group raw, sourcetype_unknown_iff raw)
