-- ===== src/Text/Words.antt =====
-- What internal/ingest/gds_events.go uses of Go's package strings besides.
use Prim.Native.Char.{Char, code}
use dmz_collector.Base.{String, Bool, ◌||◌, ◌&&◌, Option, none, some, eqb, if◌then◌else◌, ◌==◌}
use dmz_collector.Text.{is_space}

-- What follows the first colon, which strings.Index finds.
unfoldable pub after_colon : String → Option String
after_colon String.[] = none
after_colon (String.◌∷◌ c s) = if eqb (code c) b':' then some s else after_colon s

-- strings.Fields(s)[0] of a trimmed text, and the text itself if it is empty.
unfoldable pub first_word : String → String
unfolding is_space
first_word String.[] = ""
first_word (String.◌∷◌ c s) =
    let rest = first_word s in if is_space c then "" else String.◌∷◌ c rest

is_quote : Char → Bool
is_quote c = eqb (code c) 34 || eqb (code c) 39

left_quotes : String → String
left_quotes String.[] = ""
left_quotes (String.◌∷◌ c s) = if is_quote c then left_quotes s else String.◌∷◌ c s

right_quotes : String → String
right_quotes String.[] = ""
right_quotes (String.◌∷◌ c s) =
    let rest = right_quotes s in if is_quote c && (rest == "") then "" else String.◌∷◌ c rest

-- strings.Trim with the two kinds of quotes
unfoldable pub trim_quotes : String → String
unfolding left_quotes right_quotes is_quote
trim_quotes s = right_quotes (left_quotes s)
