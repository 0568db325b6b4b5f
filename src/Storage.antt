-- ===== src/Storage.antt =====
-- internal/storage/jsonl.go: the store of all accepted events. What the file system answers is an
-- argument: `writable`, `readable`.
pub mod Query
pub mod Lookup
use dmz_collector.Base.{
  ℕ, zero, suc, ◌+◌, String, Bool, true, false, ◌&&◌, ◌||◌, not, List, [], ◌∷◌, ◌++◌, Option, none,
  some, Map, ltb, length, drop, if◌then◌else◌, ◌==◌, member, exists, all,
}
use dmz_collector.Text.{to_lower, equal_fold, contains, join_blank}
use dmz_collector.SourceUtil.{normalize_source_type}
use dmz_collector.Event.{Platform, Event, to_map}
use dmz_collector.Disk.{Codec, File, append_line, fits, read_event}

pub record EventQuery : Type 0 where
  pub limit : ℕ
  pub source_type : String
  pub severity : String
  pub category : String
  pub asset : String
  pub search : String

unfoldable pub limit_of : EventQuery → ℕ
limit_of q = elim q.limit [ zero ↦ 100 | suc n ↦ suc n ]

module _ (c : Codec) where
  -- Append: an original text that is not JSON cannot be written; an absent one is written as null.
  unfoldable pub append : Bool → File → Event → Bool × File
  append writable f e =
      if (e.original_raw == "" || c.is_json e.original_raw) && writable
      then (true, append_line f (c.store_text (to_map e) e.original_raw))
      else (false, f)

  -- The search text stands in the event's fields, or in a tag's key or value.
  unfoldable pub matches_search : Event → String → Bool
  matches_search e search =
      let s = to_lower search in
      let blob = to_lower (
        join_blank (
          e.message ∷ e.raw ∷ e.asset_name ∷ e.asset_ip ∷ e.event_category ∷ e.source_type
          ∷ e.severity ∷ e.id ∷ [])) in
      contains blob s
      || exists (λ kv. contains (to_lower kv.0) s || contains (to_lower (c.value_text kv.1)) s)
          e.tags

  unfoldable pub matches : Event → EventQuery → Bool
  unfolding matches_search
  matches e q =
      if not (q.source_type == "")
        && not
            (equal_fold (normalize_source_type e.source_type) (normalize_source_type q.source_type))
      then false
      else if not (q.severity == "") && not (equal_fold e.severity q.severity)
      then false
      else if not (q.category == "") && not (equal_fold e.event_category q.category)
      then false
      else if not (q.asset == "")
          && not (equal_fold e.asset_ip q.asset || equal_fold e.asset_name q.asset)
      then false
      else if not (q.search == "")
      then matches_search e q.search
      else true

  module _ (p : Platform) (now : String) where
    -- The event of a line, with the original text that the line keeps.
    unfoldable pub read_line : String → Option Event
    read_line l = elim (c.store_read l) [
      | none ↦ none
      | some (text, original) ↦
          let e = read_event p now text in
          some (if original == "" then e else record e { original_raw = original })
    ]

    -- One round of the loop of ReadFiltered.
    unfoldable pub collect : ℕ → EventQuery → List Event → String → List Event
    collect limit q out l = elim (read_line l) [
      | none ↦ out
      | some e ↦
          if matches e q
          then (let longer = out ++ e ∷ [] in
              if ltb limit (length longer) then drop 1 longer else longer)
          else out
    ]

    collect_all : ℕ → EventQuery → List Event → List String → List Event
    collect_all limit q out [] = out
    collect_all limit q out (l ∷ ls) = collect_all limit q (collect limit q out l) ls

    -- ReadFiltered: `none` is an error.
    unfoldable pub read_filtered : Bool → File → EventQuery → Option (List Event)
    unfolding collect_all limit_of
    read_filtered readable f q = elim f [
      | none ↦ some []
      | some ls ↦ if readable && all fits ls then some (collect_all (limit_of q) q [] ls) else none
    ]

    -- The scan of ReadByID: it ends at the first hit, or at a line that is too long.
    unfoldable pub scan_for : String → List String → Option (Option Event)
    scan_for id [] = some none
    scan_for id (l ∷ ls) =
        let rest = scan_for id ls in
        if fits l
        then elim (read_line l) [
          | none ↦ rest
          | some e ↦ if e.id == id then some (some e) else rest
        ]
        else none

    -- ReadByID: `none` is an error, `some none` that no event has the id.
    unfoldable pub read_by_id : Bool → File → String → Option (Option Event)
    read_by_id readable f id = elim f [
      | none ↦ some none
      | some ls ↦ if readable then scan_for id ls else none
    ]

    unfoldable pub read_all : List String → List Event
    read_all [] = []
    read_all (l ∷ ls) = elim (read_line l) [ none ↦ read_all ls | some e ↦ e ∷ read_all ls ]

    -- LoadAll
    unfoldable pub load_all : Bool → File → Option (List Event)
    load_all readable f = elim f [
      | none ↦ some []
      | some ls ↦ if readable && all fits ls then some (read_all ls) else none
    ]

    ids_of : List Event → List String → List String
    ids_of [] ids = ids
    ids_of (e ∷ es) ids = ids_of es (if e.id == "" || member e.id ids then ids else e.id ∷ ids)

    -- LoadIDSet
    unfoldable pub load_id_set : Bool → File → Option (List String)
    unfolding ids_of
    load_id_set readable f = elim f [
      | none ↦ some []
      | some ls ↦ if readable && all fits ls then some (ids_of (read_all ls) []) else none
    ]
