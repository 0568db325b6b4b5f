-- ===== src/Receivers/Mask/Laws.antt =====
-- A masked value is clean, and stays clean when objects are compacted or put together.
use dmz_collector.Base.{
  String, Bool, true, false, List, [], ◌∷◌, Option, none, some, Map, lookup, insert, ◌≡◌, refl,
  arith, eq_iff, subst, ◌∙◌, and-left, and-right,
}
use mathlib.Core.Option.{some-injective}
use dmz_collector.Value.{
  Value, null, bool, num, str, arr, obj, Fields, no_fields, field, Items, no_items, item, entries,
  of_entries,
}
use dmz_collector.Receivers.Json.{
  compact_value, compact_fields, compact_map, non_empty, put, taken, picked,
}
use dmz_collector.Receivers.Mask.{
  is_mark, mask, mask_items, mask_fields, mask_map, clean, clean_items, clean_fields, clean_entry,
  clean_map,
}

module _ (is_key is_secret : String → Bool) (fair : is_secret "[REDACTED]" ≡ false) where
  mutual
    unfolding mask clean

    pub mask-clean : (v : Value) → clean is_key is_secret (mask is_key is_secret v) ≡ true
    mask-clean (str s) = ground arith
    mask-clean (arr vs) = mask_items-clean vs
    mask-clean (obj fs) = mask_fields-clean fs
    mask-clean null = refl
    mask-clean (bool b) = refl
    mask-clean (num t) = refl

    mask_items-clean :
        (vs : Items) → clean_items is_key is_secret (mask_items is_key is_secret vs) ≡ true
    mask_items-clean no_items = refl
    mask_items-clean (item v vs) = ground (arith, mask-clean v, mask_items-clean vs)

    pub mask_fields-clean :
        (fs : Fields) → clean_fields is_key is_secret (mask_fields is_key is_secret fs) ≡ true
    mask_fields-clean no_fields = refl
    mask_fields-clean (field k v fs) = ground (arith, mask-clean v, mask_fields-clean fs)

module _ (is_key is_secret : String → Bool) where
  pub clean_fields-entries :
      (fs : Fields) → clean_map is_key is_secret (entries fs) ≡ clean_fields is_key is_secret fs
  unfolding clean_map clean entries
  clean_fields-entries no_fields = refl
  clean_fields-entries (field k v fs) = ground (arith, clean_fields-entries fs)

  pub clean_map-of_entries :
      (m : Map Value) → clean_fields is_key is_secret (of_entries m) ≡ clean_map is_key is_secret m
  unfolding clean_map clean of_entries
  clean_map-of_entries [] = refl
  clean_map-of_entries ((k, v) ∷ m) = ground (arith, clean_map-of_entries m)

  pub insert-clean :
      (k : String) (v : Value) (m : Map Value)
      → clean_entry is_key is_secret k v ≡ true
      → clean_map is_key is_secret m ≡ true
      → clean_map is_key is_secret (insert k v m) ≡ true
  unfolding clean_map insert
  insert-clean k v [] h c = ground arith
  insert-clean k v ((j, w) ∷ m) h c = ground (arith, insert-clean k v m h)

  pub lookup-clean :
      (k : String) (v : Value) (m : Map Value)
      → clean_map is_key is_secret m ≡ true
      → lookup k m ≡ some v
      → clean_entry is_key is_secret k v ≡ true
  unfolding clean_map lookup
  lookup-clean k v [] c f = ground arith
  lookup-clean k v ((j, w) ∷ m) c f = ground (arith, eq_iff j k, lookup-clean k v m)

  taken-clean :
      (key : String) (o : Option Value) (out : Map Value)
      → ((v : Value) → o ≡ some v → clean_entry is_key is_secret key v ≡ true)
      → clean_map is_key is_secret out ≡ true
      → clean_map is_key is_secret (taken key o out) ≡ true
  unfolding taken
  taken-clean key none out h c = c
  taken-clean key (some v) out h c = insert-clean key v out (h v refl) c

  -- Keys that are copied from a clean object leave a clean object clean.
  pub picked-clean :
      (keys : List String) (rec out : Map Value)
      → clean_map is_key is_secret rec ≡ true
      → clean_map is_key is_secret out ≡ true
      → clean_map is_key is_secret (picked keys rec out) ≡ true
  unfolding picked
  picked-clean [] rec out r o = o
  picked-clean (key ∷ keys) rec out r o =
      picked-clean keys rec (taken key (lookup key rec) out) r
        (taken-clean key (lookup key rec) out (λ v. lookup-clean key v rec r) o)

  non_empty-clean :
      (fs : Fields) (w : Value)
      → clean_fields is_key is_secret fs ≡ true
      → non_empty fs ≡ some w
      → clean is_key is_secret w ≡ true
  unfolding non_empty clean
  non_empty-clean no_fields w c f = ground arith
  non_empty-clean (field k v fs) w c f =
      subst (λ x. clean is_key is_secret x ≡ true) (some-injective _ _ f) c

  put-clean :
      (k : String) (o : Option Value) (rest : Fields)
      → ((w : Value) → o ≡ some w → clean_entry is_key is_secret k w ≡ true)
      → clean_fields is_key is_secret rest ≡ true
      → clean_fields is_key is_secret (put k o rest) ≡ true
  unfolding put clean
  put-clean k none rest h c = c
  put-clean k (some w) rest h c = ground (arith, h w refl)

  compact-is_mark : (v w : Value) → is_mark v ≡ true → compact_value v ≡ some w → is_mark w ≡ true
  unfolding compact_value
  compact-is_mark (str s) w m f = ground arith
  compact-is_mark (arr vs) w m f = ground arith
  compact-is_mark (obj fs) w m f = ground arith
  compact-is_mark null w m f = ground arith
  compact-is_mark (bool b) w m f = ground arith
  compact-is_mark (num t) w m f = ground arith

  entry-clean :
      (k : String) (v w : Value)
      → (clean is_key is_secret v ≡ true → clean is_key is_secret w ≡ true)
      → compact_value v ≡ some w
      → clean_entry is_key is_secret k v ≡ true
      → clean_entry is_key is_secret k w ≡ true
  entry-clean k v w h kept c = ground (arith, compact-is_mark v w)

  head-clean :
      (k : String) (v : Value) (fs : Fields)
      → clean_fields is_key is_secret (field k v fs) ≡ true
      → clean_entry is_key is_secret k v ≡ true
  unfolding clean
  head-clean k v fs c = and-left _ _ c

  tail-clean :
      (k : String) (v : Value) (fs : Fields)
      → clean_fields is_key is_secret (field k v fs) ≡ true
      → clean_fields is_key is_secret fs ≡ true
  unfolding clean
  tail-clean k v fs c = and-right (clean_entry is_key is_secret k v) _ c

  mutual
    unfolding clean compact_value

    compact_value-clean :
        (v w : Value)
        → clean is_key is_secret v ≡ true
        → compact_value v ≡ some w
        → clean is_key is_secret w ≡ true
    compact_value-clean (str s) w c f = ground arith
    compact_value-clean (arr vs) w c f = ground arith
    compact_value-clean (obj fs) w c f =
        non_empty-clean (compact_fields fs) w (compact_fields-clean fs c) f
    compact_value-clean null w c f = ground arith
    compact_value-clean (bool b) w c f = ground arith
    compact_value-clean (num t) w c f = ground arith

    compact_fields-clean :
        (fs : Fields)
        → clean_fields is_key is_secret fs ≡ true
        → clean_fields is_key is_secret (compact_fields fs) ≡ true
    compact_fields-clean no_fields c = refl
    compact_fields-clean (field k v fs) c =
        put-clean k (compact_value v) (compact_fields fs)
          (λ w kept.
            entry-clean k v w (λ h. compact_value-clean v w h kept) kept (head-clean k v fs c))
          (compact_fields-clean fs (tail-clean k v fs c))

  pub compact_map-clean :
      (m : Map Value)
      → clean_map is_key is_secret m ≡ true
      → clean_map is_key is_secret (compact_map m) ≡ true
  unfolding compact_map
  compact_map-clean m c =
      clean_fields-entries (compact_fields (of_entries m))
      ∙ compact_fields-clean (of_entries m) (clean_map-of_entries m ∙ c)

module _ (is_key is_secret : String → Bool) (fair : is_secret "[REDACTED]" ≡ false) where
  pub mask_map-clean :
      (m : Map Value) → clean_map is_key is_secret (mask_map is_key is_secret m) ≡ true
  unfolding mask_map
  mask_map-clean m =
      clean_fields-entries is_key is_secret (mask_fields is_key is_secret (of_entries m))
      ∙ mask_fields-clean is_key is_secret fair (of_entries m)
