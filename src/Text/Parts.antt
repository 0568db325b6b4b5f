-- ===== src/Text/Parts.antt =====
-- What the receivers use of Go's packages strings, bytes and bufio besides.
use Prim.Native.Char.{Char, code}
use Prim.Native.String.{len, char_at, slice}
use text.Mathlib.Text.{starts_with}
use dmz_collector.Base.{String, Bool, ◌||◌, List, [], ◌∷◌, ltb, eqb, if◌then◌else◌, ◌==◌}
use dmz_collector.Text.{trim_slashes}

-- strings.ReplaceAll(s, "-", "_")
unfoldable pub underscored : String → String
underscored String.[] = ""
underscored (String.◌∷◌ c s) =
    String.◌∷◌ (if eqb (code c) b'-' then char_at "_" 0 else c) (underscored s)

-- strings.NewReplacer("-", "_", ".", "_").Replace(s)
unfoldable pub collapsed : String → String
collapsed String.[] = ""
collapsed (String.◌∷◌ c s) =
    String.◌∷◌ (if eqb (code c) b'-' || eqb (code c) b'.' then char_at "_" 0 else c) (collapsed s)

-- strings.HasSuffix
unfoldable pub ends_with : String → String → Bool
ends_with String.[] t = t == ""
ends_with (String.◌∷◌ c s) t = (String.◌∷◌ c s == t) || ends_with s t

-- strings.TrimPrefix
unfoldable pub trim_prefix : String → String → String
trim_prefix s t = if starts_with s t then slice s (len t) (len s) else s

trim_left_slashes : String → String
trim_left_slashes String.[] = ""
trim_left_slashes (String.◌∷◌ c s) =
    if eqb (code c) b'/' then trim_left_slashes s else String.◌∷◌ c s

-- strings.Trim(s, "/")
unfoldable pub trim_path : String → String
unfolding trim_left_slashes
trim_path s = trim_slashes (trim_left_slashes s)

longer : Char → List String → List String
longer c [] = String.◌∷◌ c "" ∷ []
longer c (l ∷ ls) = String.◌∷◌ c l ∷ ls

-- The tokens of a bufio.Scanner over a text; a carriage return at a line's end stays, and every
-- caller trims the line.
unfoldable pub split_lines : String → List String
unfolding longer
split_lines String.[] = []
split_lines (String.◌∷◌ c s) =
    let rest = split_lines s in if eqb (code c) b'\n' then "" ∷ rest else longer c rest

-- The buffer of 4 MB that the receivers give their scanners.
unfoldable pub fits_scanner : String → Bool
fits_scanner l = ltb (len l) 4_194_304
