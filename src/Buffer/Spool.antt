-- ===== src/Buffer/Spool.antt =====
-- internal/buffer/spool.go: the spool of accepted events and the checkpoint of what was forwarded.
-- What the file system answers is an argument: `writable`, `readable`.
pub mod Pending
use dmz_collector.Base.{
  ℕ, ◌+◌, String, Bool, true, false, List, [], ◌∷◌, Option, none, some, leb, all, if◌then◌else◌,
}
use dmz_collector.Event.{Platform, Event, to_map}
use dmz_collector.Disk.{Codec, File, lines_of, size_of, append_line, fits, read_event}

pub record SpoolRecord : Type 0 where
  pub offset : ℕ
  pub event : Event

pub record Spool : Type 0 where
  pub file : File
  -- `checkpoint.json`, or `none` where it is missing or does not read
  pub checkpoint : Option ℕ

unfoldable pub new_spool : File → Option ℕ → Spool
new_spool file checkpoint = record { file = file; checkpoint = checkpoint }

-- LastForwardedOffset of a checkpoint that was not read is Go's zero.
abbrev pub last_forwarded : Option ℕ → ℕ
last_forwarded none = 0
last_forwarded (some offset) = offset

-- Those that lie beyond the checkpoint.
unfoldable pub beyond : ℕ → List SpoolRecord → List SpoolRecord
beyond last [] = []
beyond last (r ∷ rs) = if leb r.offset last then beyond last rs else r ∷ beyond last rs

module _ (c : Codec) where
  -- Append: the offset is the size of the file before.
  unfoldable pub append : Bool → Spool → Event → Option ℕ × Spool
  append writable s e =
      let offset = size_of (lines_of s.file) in
      if writable
      then (some offset, record s { file = append_line s.file (c.spool_text offset (to_map e)) })
      else (none, s)

  -- The records of the lines that read as one.
  read_records : Platform → String → List String → List SpoolRecord
  read_records p now [] = []
  read_records p now (l ∷ ls) = elim (c.spool_read l) [
    | none ↦ read_records p now ls
    | some (offset, text) ↦
        record { offset = offset; event = read_event p now text } ∷ read_records p now ls
  ]

  -- LoadPending: `none` is an error, of the file system or of the scanner on a long line.
  unfoldable pub load_pending : Platform → String → Bool → Spool → Option (List SpoolRecord)
  unfolding read_records beyond
  load_pending p now readable s = elim s.file [
    | none ↦ some []
    | some ls ↦
        if readable
        then (if all fits ls
            then some (beyond (last_forwarded s.checkpoint) (read_records p now ls))
            else none)
        else none
  ]

-- MarkForwarded
unfoldable pub mark_forwarded : Bool → ℕ → Spool → Spool
mark_forwarded writable offset s = if writable then record s { checkpoint = some offset } else s
