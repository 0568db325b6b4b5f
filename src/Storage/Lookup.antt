-- ===== src/Storage/Lookup.antt =====
-- ReadByID, LoadIDSet and the round trip through a line of internal/storage/jsonl.go.
use dmz_collector.Base.{
  String, true, ◌||◌, List, [], ◌∷◌, ◌++◌, Option, none, some, ◌≡◌, refl, ◌≢◌, ◌↔◌, ap, ◌∙◌, arith,
  all, Bool-cases, inl, inr, if◌then◌else◌, ◌==◌, eq_iff, member, exists,
}
use dmz_collector.Event.{Platform, Event, to_map}
use dmz_collector.Event.RoundTrip.{IsParsed, parse_object-to_map}
use dmz_collector.Disk.{Codec, File, lines_of, fits, read_event}
use dmz_collector.Disk.Laws.{all-fits-append}
use dmz_collector.Storage.{append, read_line, scan_for, read_by_id, read_all, ids_of, load_id_set}

abbrev pub first_with : String → List Event → Option Event
first_with id [] = none
first_with id (e ∷ es) = if e.id == id then some e else first_with id es

first_with-exists :
    (id : String) (es : List Event)
    → exists (λ e. e.id == id) es ≡ true
    → (e : Event) × (first_with id es ≡ some e)
first_with-exists id [] h = cc
first_with-exists id (e ∷ es) h = elim (Bool-cases (e.id == id)) [
  | inl hit ↦ (e, rw hit)
  | inr miss ↦ let (f, found) = first_with-exists id es (ground arith) in (f, rw miss found)
]

exists-first_with :
    (id : String) (es : List Event) (e : Event)
    → first_with id es ≡ some e
    → exists (λ x. x.id == id) es ≡ true
exists-first_with id [] e h = cc
exists-first_with id (x ∷ es) e h = ground (arith, exists-first_with id es e)

first_with-last :
    (id : String) (es : List Event) (e : Event)
    → first_with id es ≡ none
    → e.id ≡ id
    → first_with id (es ++ e ∷ []) ≡ some e
first_with-last id [] e h same = ground (arith, eq_iff e.id id)
first_with-last id (x ∷ es) e h same = ground (arith, first_with-last id es e)

module _ (c : Codec) (p : Platform) (now : String) where
  scan_for-first :
      (id : String) (ls : List String)
      → all fits ls ≡ true
      → scan_for c p now id ls ≡ some (first_with id (read_all c p now ls))
  unfolding scan_for read_all
  scan_for-first id [] h = refl
  scan_for-first id (l ∷ ls) h = ground (arith, scan_for-first id ls)

  ids_of-member :
      (id : String) (es : List Event) (ids : List String)
      → id ≢ ""
      → member id (ids_of c p now es ids) ≡ (member id ids || exists (λ e. e.id == id) es)
  unfolding ids_of member
  ids_of-member id [] ids set = ground arith
  ids_of-member id (e ∷ es) ids set = ground (
    arith,
    ids_of-member id es ids set,
    ids_of-member id es (e.id ∷ ids) set,
    eq_iff e.id "",
    eq_iff e.id id,
  )

  -- On a readable store whose lines fit the scanner, the set of known ids that a restart loads
  -- holds an id exactly when ReadByID finds an event under it.
  pub load_id_set-read_by_id :
      (f : File) (id : String)
      → all fits (lines_of f) ≡ true
      → id ≢ ""
      → (ids : List String) × (load_id_set c p now true f ≡ some ids)
        × ((member id ids ≡ true) ↔ ((e : Event) × (read_by_id c p now true f id ≡ some (some e))))
  unfolding load_id_set read_by_id member
  load_id_set-read_by_id none id h set = ([], refl, ground arith)
  load_id_set-read_by_id (some ls) id h set =
      let es = read_all c p now ls in
      let seen = ids_of-member id es [] set in
      let scanned = scan_for-first id ls h in
      (
        ids_of c p now es [],
        rw h,
        (
          (λ held.
              let (e, found) = first_with-exists id es (ground arith) in
              (e, scanned ∙ ap some found)),
          λ (e, found). ground (arith, exists-first_with id es e),
        ),
      )

  read_all-append :
      (ls ms : List String)
      → read_all c p now (ls ++ ms) ≡ read_all c p now ls ++ read_all c p now ms
  unfolding read_all
  read_all-append [] ms = refl
  read_all-append (l ∷ ls) ms = ground (arith, read_all-append ls ms)

  read_line_written :
      (e : Event) (text kept : String)
      → IsParsed e
      → kept ≢ ""
      → c.store_read (c.store_text (to_map e) e.original_raw) ≡ some (some (text, to_map e), kept)
      → read_line c p now (c.store_text (to_map e) e.original_raw)
        ≡ some (record e { original_raw = kept })
  unfolding read_line read_event
  read_line_written e text kept parsed original reads =
      rw (reads, read_line)
        (ground (arith, eq_iff kept "", parse_object-to_map p now text e parsed))

  read_all_one :
      (l : String) (e : Event) → read_line c p now l ≡ some e → read_all c p now (l ∷ []) ≡ e ∷ []
  unfolding read_all
  read_all_one l e h = rw (h, read_all)

  -- Storing an event in parsed form under an id that no earlier line has makes ReadByID give back
  -- that event in all its fields, tags and extra fields, whatever the clock says at the read; its
  -- original text is the non-empty text that encoding/json made of it when it wrote the line. The
  -- original text is some JSON text, the line reads as it was written, and it fits the scanner, as
  -- all lines before it do.
  pub read_by_id-append :
      (f : File) (e : Event) (text kept : String)
      → IsParsed e
      → kept ≢ ""
      → c.is_json e.original_raw ≡ true
      → c.store_read (c.store_text (to_map e) e.original_raw) ≡ some (some (text, to_map e), kept)
      → all fits (lines_of f) ≡ true
      → fits (c.store_text (to_map e) e.original_raw) ≡ true
      → first_with e.id (read_all c p now (lines_of f)) ≡ none
      → read_by_id c p now true (append c true f e).1 e.id
        ≡ some (some (record e { original_raw = kept }))
  unfolding append read_by_id
  read_by_id-append f e text kept parsed original json reads old fit new =
      let ls = lines_of f in
      let line = c.store_text (to_map e) e.original_raw in
      let back = record e { original_raw = kept } in
      let one = read_all_one line back (read_line_written e text kept parsed original reads) in
      let found = first_with-last e.id (read_all c p now ls) back new refl in
      rw json (
        ground (
          arith,
          scan_for-first e.id (ls ++ line ∷ []),
          all-fits-append ls (line ∷ []),
          read_all-append ls (line ∷ []),
          one,
          found,
          eq_iff e.original_raw "",
        ))
