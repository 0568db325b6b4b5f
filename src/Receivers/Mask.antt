-- ===== src/Receivers/Mask.antt =====
-- redactOPCUADMZValue and redactJumphostValue of internal/ingest, and redactGDSOPCUAFacadeValue:
-- one function over two tests, that of a key and that of a text. Objects and arrays are looked into
-- at every depth.
pub mod Laws
use dmz_collector.Base.{String, Bool, true, not, ◌&&◌, Map, if◌then◌else◌, ◌==◌, all, false}
use dmz_collector.Value.{
  Value, null, bool, num, str, arr, obj, Fields, no_fields, field, Items, no_items, item, entries,
  of_entries,
}

abbrev pub mark : Value
mark = str "[REDACTED]"

abbrev pub is_mark : Value → Bool
is_mark (str s) = s == "[REDACTED]"
is_mark _ = false

module _ (is_key is_secret : String → Bool) where
  unfoldable mutual
    pub mask : Value → Value
    mask (str s) = if is_secret s then mark else str s
    mask (arr vs) = arr (mask_items vs)
    mask (obj fs) = obj (mask_fields fs)
    mask v = v

    pub mask_items : Items → Items
    mask_items no_items = no_items
    mask_items (item v vs) = item (mask v) (mask_items vs)

    pub mask_fields : Fields → Fields
    mask_fields no_fields = no_fields
    mask_fields (field k v fs) = field k (if is_key k then mark else mask v) (mask_fields fs)

  unfoldable pub mask_map : Map Value → Map Value
  mask_map m = entries (mask_fields (of_entries m))

  -- No secret text at any depth, and nothing but the mark under a sensitive key.
  unfoldable mutual
    pub clean : Value → Bool
    clean (str s) = not (is_secret s)
    clean (arr vs) = clean_items vs
    clean (obj fs) = clean_fields fs
    clean v = true

    pub clean_items : Items → Bool
    clean_items no_items = true
    clean_items (item v vs) = clean v && clean_items vs

    pub clean_fields : Fields → Bool
    clean_fields no_fields = true
    clean_fields (field k v fs) = (if is_key k then is_mark v else clean v) && clean_fields fs

  abbrev pub clean_entry : String → Value → Bool
  clean_entry k v = if is_key k then is_mark v else clean v

  unfoldable pub clean_map : Map Value → Bool
  clean_map m = all (λ kv. clean_entry kv.0 kv.1) m
