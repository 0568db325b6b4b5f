-- ===== src/Buffer/Spool/Pending.antt =====
-- What LoadPending of internal/buffer/spool.go gives back.
use dmz_collector.Base.{
  ℕ, ◌<◌, String, Bool, subst, true, false, List, [], ◌∷◌, ◌++◌, Option, none, some, ◌≡◌, refl, ◌≢◌,
  arith, ◌∙◌, all, All, Map,
}
use dmz_collector.Value.{Value}
use dmz_collector.Event.{Platform, Event, to_map, parse_object}
use dmz_collector.Disk.{Codec, File, lines_of, size_of, fits, read_event}
use dmz_collector.Disk.Laws.{all-fits-append}
use dmz_collector.Event.RoundTrip.{IsParsed, parse_object-to_map}
use dmz_collector.Buffer.Spool.{
  mark_forwarded, SpoolRecord, Spool, last_forwarded, append, read_records, beyond, load_pending,
}

-- What the collector does to its spool: Append and MarkForwarded, each with the answer of the disk.
pub data Op : Type 0 where
  appends : Bool → Event → Op
  marks : Bool → ℕ → Op

abbrev act : Codec → Op → Spool → Spool
act c (appends writable e) s = (append c writable s e).1
act c (marks writable offset) s = mark_forwarded writable offset s

abbrev pub run : Codec → List Op → Spool → Spool
run c [] s = s
run c (op ∷ ops) s = run c ops (act c op s)

-- A line of the file is too long for the scanner.
abbrev HasLongLine : Spool → Type 0
HasLongLine s = (ls : List String) × (s.file ≡ some ls) × (all fits ls ≡ false)

beyond-All : (last : ℕ) (rs : List SpoolRecord) → All (λ r. last < r.offset) (beyond last rs)
unfolding beyond
beyond-All last [] = tt
beyond-All last (r ∷ rs) = ground (arith, beyond-All last rs)

beyond_none :
    (last : ℕ) (rs : List SpoolRecord) → All (λ r. last < r.offset) rs → All (λ r. r.offset ≢ 0) rs
beyond_none last [] h = tt
beyond_none last (r ∷ rs) h = (omega arith, beyond_none last rs h.1)

beyond-append :
    (last : ℕ) (rs qs : List SpoolRecord)
    → beyond last (rs ++ qs) ≡ beyond last rs ++ beyond last qs
unfolding beyond
beyond-append last [] qs = refl
beyond-append last (r ∷ rs) qs = ground (arith, beyond-append last rs qs)

beyond_new : (last : ℕ) (r : SpoolRecord) → last < r.offset → beyond last (r ∷ []) ≡ r ∷ []
unfolding beyond
beyond_new last r h = ground arith

module _ (c : Codec) (p : Platform) (now : String) where
  read_records-append :
      (ls ms : List String)
      → read_records c p now (ls ++ ms) ≡ read_records c p now ls ++ read_records c p now ms
  unfolding read_records
  read_records-append [] ms = refl
  read_records-append (l ∷ ls) ms = ground (arith, read_records-append ls ms)

  read_records_one :
      (l : String) (o : ℕ) (text : Option (String × Map Value))
      → c.spool_read l ≡ some (o, text)
      → read_records c p now (l ∷ []) ≡ record { offset = o; event = read_event p now text } ∷ []
  unfolding read_records
  read_records_one l o text h = rw (h, read_records)

  -- Whatever the spool gives back as pending lies beyond the checkpoint.
  pub loaded-beyond :
      (readable : Bool) (s : Spool) (rs : List SpoolRecord)
      → load_pending c p now readable s ≡ some rs
      → All (λ r. last_forwarded s.checkpoint < r.offset) rs
  unfolding load_pending
  loaded-beyond readable s rs loaded = go s.file refl
    where
      go : (f : File) → s.file ≡ f → All (λ r. last_forwarded s.checkpoint < r.offset) rs
      go none e = subst (All (λ r. last_forwarded s.checkpoint < r.offset)) (the_list e) tt
        where
          the_list : s.file ≡ none → [] ≡ rs
          the_list e = ground arith
      go (some ls) e =
          subst (All (λ r. last_forwarded s.checkpoint < r.offset)) (the_list e)
            (beyond-All (last_forwarded s.checkpoint) (read_records c p now ls))
        where
          the_list :
              s.file ≡ some ls → beyond (last_forwarded s.checkpoint) (read_records c p now ls) ≡ rs
          the_list e = ground arith

  -- The record at offset 0, the first that a spool ever holds, is pending under no checkpoint, the
  -- missing one included: no list of pending records has it.
  pub first_never_pending :
      (readable : Bool) (s : Spool) (rs : List SpoolRecord)
      → load_pending c p now readable s ≡ some rs
      → All (λ r. r.offset ≢ 0) rs
  first_never_pending readable s rs loaded =
      beyond_none (last_forwarded s.checkpoint) rs (loaded-beyond readable s rs loaded)

  load_pending-HasLongLine :
      (readable : Bool) (s : Spool) → HasLongLine s → load_pending c p now readable s ≡ none
  unfolding load_pending
  load_pending-HasLongLine true s (ls, there, long) = rw (there, load_pending) (rw long)
  load_pending-HasLongLine false s (ls, there, long) = rw (there, load_pending)

  act-HasLongLine : (op : Op) (s : Spool) → HasLongLine s → HasLongLine (act c op s)
  unfolding append mark_forwarded
  act-HasLongLine (appends true e) s (ls, there, long) =
      let line = c.spool_text (size_of (lines_of s.file)) (to_map e) in
      (
        lines_of s.file ++ line ∷ [],
        refl,
        rw there (all-fits-append ls (c.spool_text (size_of ls) (to_map e) ∷ []) ∙ rw long),
      )
  act-HasLongLine (appends false e) s h = h
  act-HasLongLine (marks true offset) s h = h
  act-HasLongLine (marks false offset) s h = h

  run-HasLongLine : (ops : List Op) (s : Spool) → HasLongLine s → HasLongLine (run c ops s)
  run-HasLongLine [] s h = h
  run-HasLongLine (op ∷ ops) s h = run-HasLongLine ops (act c op s) (act-HasLongLine op s h)

  append-HasLongLine :
      (s : Spool) (e : Event)
      → fits (c.spool_text (size_of (lines_of s.file)) (to_map e)) ≡ false
      → HasLongLine (append c true s e).1
  unfolding append
  append-HasLongLine s e long =
      let line = c.spool_text (size_of (lines_of s.file)) (to_map e) in
      (
        lines_of s.file ++ line ∷ [],
        refl,
        all-fits-append (lines_of s.file) (line ∷ []) ∙ ground (arith, long),
      )

  -- An event whose line is too long for the scanner is appended without an error, under the size of
  -- the file. From then on every load fails, whatever is appended and marked as forwarded meanwhile
  -- and whatever of that fails: nothing that the spool holds is pending ever again.
  pub long_line_blocks :
      (s : Spool) (e : Event) (ops : List Op) (readable : Bool)
      → fits (c.spool_text (size_of (lines_of s.file)) (to_map e)) ≡ false
      → ((append c true s e).0 ≡ some (size_of (lines_of s.file)))
        × (load_pending c p now readable (run c ops (append c true s e).1) ≡ none)
  unfolding append
  long_line_blocks s e ops readable long = (
    refl,
    load_pending-HasLongLine readable (run c ops (append c true s e).1)
        (run-HasLongLine ops (append c true s e).1 (append-HasLongLine s e long)),
  )

  -- An event in parsed form appended to a spool that is not empty gets the size of the file as its
  -- offset, and is pending under that offset, behind all that was pending before: the same event,
  -- its original text being that of the spool's line. Its line fits the scanner and reads as
  -- encoding/json wrote it, and the checkpoint lies below that offset.
  pub load_pending-append :
      (s : Spool) (e : Event) (ls : List String) (rs : List SpoolRecord) (text : String)
      → s.file ≡ some ls
      → IsParsed e
      → load_pending c p now true s ≡ some rs
      → c.spool_read (c.spool_text (size_of ls) (to_map e))
        ≡ some (size_of ls, some (text, to_map e))
      → fits (c.spool_text (size_of ls) (to_map e)) ≡ true
      → last_forwarded s.checkpoint < size_of ls
      → (offset : ℕ) × ((append c true s e).0 ≡ some offset)
        × (load_pending c p now true (append c true s e).1
            ≡ some
                (rs ++ record { offset = offset; event = record e { original_raw = text } } ∷ []))
  unfolding load_pending append read_event
  load_pending-append s e ls rs text there parsed loaded reads fit new =
      let last = last_forwarded s.checkpoint in
      let line = c.spool_text (size_of ls) (to_map e) in
      (
        size_of ls,
        rw there refl,
        rw there (
            ground (
              arith,
              all-fits-append ls (line ∷ []),
              read_records-append ls (line ∷ []),
              read_records_one line (size_of ls) (some (text, to_map e)) reads,
              beyond-append last (read_records c p now ls) (read_records c p now (line ∷ [])),
              beyond_new last
                  (record { offset = size_of ls; event = parse_object p now text (to_map e) }),
              parse_object-to_map p now text e parsed,
            )),
      )
