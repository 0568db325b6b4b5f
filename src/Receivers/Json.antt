-- ===== src/Receivers/Json.antt =====
-- The helpers of internal/ingest/gds_events.go that the receivers share: how a field of a decoded
-- JSON object is read as a text or as an object, and how an object is compacted.
use dmz_collector.Base.{
  String, Bool, false, ◌||◌, List, [], ◌∷◌, Option, none, some, Map, lookup, insert, if◌then◌else◌,
  ◌==◌,
}
use dmz_collector.Text.{trim_space, equal_fold}
use dmz_collector.Value.{
  Value, null, bool, num, str, obj, Fields, no_fields, field, entries, of_entries,
}
use dmz_collector.Event.{Platform}

-- mapAny: what is no object is the empty one.
abbrev pub map_any : Option Value → Map Value
map_any (some (obj fs)) = entries fs
map_any _ = []

-- The first key of the object whose text is not blank, trimmed.
unfoldable pub first_of : (Option Value → String) → Map Value → List String → String
first_of text m [] = ""
first_of text m (key ∷ keys) =
    let rest = first_of text m keys in
    let found = trim_space (text (lookup key m)) in if found == "" then rest else found

module _ (p : Platform) where
  -- stringAny
  unfoldable pub string_any : Option Value → String
  string_any none = ""
  string_any (some null) = ""
  string_any (some (str s)) = s
  string_any (some (num t)) = elim (p.whole t) [ some d ↦ d | none ↦ p.sprint (num t) ]
  string_any (some v) = p.sprint v

  -- firstString: the record, then its details, then its raw object.
  unfoldable pub first_string : Map Value → List String → String
  unfolding first_of
  first_string rec keys =
      let here = first_of string_any rec keys in
      let details = first_of string_any (map_any (lookup "details_json" rec)) keys in
      let raw = first_of string_any (map_any (lookup "raw" rec)) keys in
      if here == "" then (if details == "" then raw else details) else here

  -- unwrapJSONStringPayload
  unfoldable pub unwrapped : String → String
  unwrapped raw = elim (p.unmarshal_string raw) [
    | none ↦ raw
    | some text ↦ if trim_space text == "" then raw else trim_space text
  ]

-- boolValue
unfoldable pub bool_value : Option Value → Bool
bool_value (some (bool b)) = b
bool_value (some (str s)) = equal_fold s "true" || (s == "1") || equal_fold s "ok"
bool_value _ = false

unfoldable pub non_empty : Fields → Option Value
non_empty no_fields = none
non_empty (field k v fs) = some (obj (field k v fs))

unfoldable pub put : String → Option Value → Fields → Fields
put k none rest = rest
put k (some v) rest = field k v rest

-- compactGDSMap: nulls, blank texts and objects that come out empty are left out.
unfoldable mutual
  unfolding non_empty put

  pub compact_value : Value → Option Value
  compact_value null = none
  compact_value (str s) = if trim_space s == "" then none else some (str s)
  compact_value (obj fs) = non_empty (compact_fields fs)
  compact_value v = some v

  pub compact_fields : Fields → Fields
  compact_fields no_fields = no_fields
  compact_fields (field k v fs) = put k (compact_value v) (compact_fields fs)

unfoldable pub compact_map : Map Value → Map Value
compact_map m = entries (compact_fields (of_entries m))

-- A key that was found is copied.
unfoldable pub taken : String → Option Value → Map Value → Map Value
taken key none out = out
taken key (some v) out = insert key v out

-- The keys of a list that a record has, copied in order.
unfoldable pub picked : List String → Map Value → Map Value → Map Value
unfolding taken
picked [] rec out = out
picked (key ∷ keys) rec out = picked keys rec (taken key (lookup key rec) out)
