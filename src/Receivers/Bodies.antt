-- ===== src/Receivers/Bodies.antt =====
-- How a body is read as events, as NormalizeOPCUADMZEventsMany and NormalizeJumphostEventsMany of
-- internal/ingest both do: an array of records, one record, or lines of which one that is no record
-- is a text of its own.
use text.Mathlib.Text.{starts_with}
use dmz_collector.Base.{
  String, List, [], ◌∷◌, Option, none, some, ◌≡◌, arith, if◌then◌else◌, ◌==◌, All, subst, ap,
  if_both, case_both,
}
use dmz_collector.Text.{trim_space, contains}
use dmz_collector.Text.Parts.{split_lines}
use dmz_collector.Event.{Platform, Event}
use dmz_collector.Receivers.{empty_body, not_json, Reading, read, refused}
use dmz_collector.Receivers.Json.{unwrapped}
use dmz_collector.Receivers.Rows.{
  contents, read-injective, some_of, some_of-All, read_rows, read_lines, read_rows-All,
  read_lines-All,
}

-- A record by itself, and a line that is none.
module _ (p : Platform) (one : String → Option Event) (text_line : String → Event) where
  -- A row of an array must be an object.
  unfoldable pub read_row : String → Reading Event
  read_row row = elim (one row) [ none ↦ refused not_json | some e ↦ read e ]

  -- A line that is no object is a text of its own.
  unfoldable pub line_event : String → Event
  line_event line = elim (one line) [ none ↦ text_line line | some e ↦ e ]

  unfoldable pub read_text : String → Reading (List Event)
  unfolding some_of line_event
  read_text raw = some_of (read_lines (λ l. read (line_event l)) (split_lines raw))

  unfoldable pub read_body : String → Reading (List Event)
  unfolding read_row line_event read_text
  read_body body =
      let raw = unwrapped p (trim_space body) in
      if raw == ""
      then refused empty_body
      else if starts_with raw "["
      then elim (p.unmarshal_array raw) [
        | some rows ↦ read_rows read_row rows
        | none ↦ read_text raw
      ]
      else if starts_with raw "{"
      then elim (one raw) [
        | some e ↦ read (e ∷ [])
        | none ↦ if contains raw "\n" then read_text raw else refused not_json
      ]
      else read_text raw

  -- What holds of every record and of every line that is none holds of all that a body gives.
  module _ {ℓ} (P : Event → Type ℓ) (record_P : (raw : String) (e : Event) → one raw ≡ some e → P e)
      (line_P : (line : String) → P (text_line line)) where
    line_event-All : (line : String) → P (line_event line)
    unfolding line_event
    line_event-All line =
        case_both P (one line) (text_line line) (λ e. e) (λ no_object. line_P line) (record_P line)

    abbrev AllOf : Reading (List Event) → Type ℓ
    AllOf r = (es : List Event) → r ≡ read es → All P es

    read_text-All : (raw : String) → AllOf (read_text raw)
    unfolding read_text
    read_text-All raw es made =
        let lines = read_lines (λ l. read (line_event l)) (split_lines raw) in
        some_of-All P lines es
          (λ more.
            read_lines-All P (λ l. read (line_event l)) (split_lines raw) more
              (λ l e same. subst P (read-injective same) (line_event-All l)))
          made

    read_row-All : (row : String) (e : Event) → read_row row ≡ read e → P e
    unfolding read_row
    read_row-All row =
        case_both (λ r. (e : Event) → r ≡ read e → P e) (one row) (refused not_json) (λ e. read e)
          (λ failed e made. ground arith)
          (λ e found f made. subst P (read-injective made) (record_P row e found))

    pub read_body-All : (body : String) (es : List Event) → read_body body ≡ read es → All P es
    unfolding read_body
    read_body-All body =
        let raw = unwrapped p (trim_space body) in
        let text = read_text-All raw in
        if_both AllOf (raw == "") _ _ (λ es made. ground arith)
          (if_both AllOf (starts_with raw "[") _ _
            (case_both AllOf (p.unmarshal_array raw) (read_text raw) (read_rows read_row)
              (λ no_array. text) (λ rows decoded es. read_rows-All P read_row rows es read_row-All))
            (if_both AllOf (starts_with raw "{") _ _
              (case_both AllOf (one raw)
                (if contains raw "\n" then read_text raw else refused not_json) (λ e. read (e ∷ []))
                (λ failed. if_both AllOf (contains raw "\n") _ _ text (λ es made. ground arith))
                (λ e found es made. subst (All P) (ap contents made) (record_P raw e found, tt)))
              text))
