-- ===== src/Value.antt =====
-- The values of Go's `any` that JSON decoding and the collector's own literals produce.
-- A number is kept as the text that Go prints for it, which is the shortest that reads back.
use dmz_collector.Base.{String, Bool, [], ◌∷◌, Map, ◌≡◌, refl, ap}

mutual
  pub data Value : Type 0 where
    null : Value
    bool : Bool → Value
    num : String → Value
    str : String → Value
    arr : Items → Value
    obj : Fields → Value

  -- The fields of an object, in the order of the map.
  pub data Fields : Type 0 where
    no_fields : Fields
    field : (key : String) (value : Value) (others : Fields) → Fields

  -- The elements of an array.
  pub data Items : Type 0 where
    no_items : Items
    item : (first : Value) (others : Items) → Items

-- An object's fields as a map, and back.
unfoldable pub entries : Fields → Map Value
entries no_fields = []
entries (field k v fs) = (k, v) ∷ entries fs

unfoldable pub of_entries : Map Value → Fields
of_entries [] = no_fields
of_entries ((k, v) ∷ m) = field k v (of_entries m)

pub entries-of_entries : (m : Map Value) → entries (of_entries m) ≡ m
unfolding entries of_entries
entries-of_entries [] = refl
entries-of_entries ((k, v) ∷ m) = ap (λ (r : Map Value). (k, v) ∷ r) (entries-of_entries m)
