-- ===== src/Text.antt =====
-- What the program uses of Go's package strings, over texts as lists of code points.
-- Letter case is that of the ASCII letters, which is where the program's own words lie.
pub mod Laws
pub mod Trims
pub mod Parts
pub mod Words
use Prim.Native.Char.{Char, code}
use Prim.Native.String.{char_at, ◌++◌}
use text.Mathlib.Text.{starts_with}
use dmz_collector.Base.{
  ℕ, ◌-◌, String, Bool, false, ◌&&◌, ◌||◌, List, [], ◌∷◌, leb, eqb, if◌then◌else◌, ◌==◌, member,
}

lower_char : Char → Char
lower_char c =
    if leb 65 (code c) && leb (code c) 90
    then char_at "abcdefghijklmnopqrstuvwxyz" (code c - 65)
    else c

-- strings.ToLower
unfoldable pub to_lower : String → String
unfolding lower_char
to_lower String.[] = ""
to_lower (String.◌∷◌ c s) = String.◌∷◌ (lower_char c) (to_lower s)

-- unicode.IsSpace
is_space : Char → Bool
is_space c =
    (leb 9 n && leb n 13)
    || eqb n 32
    || eqb n 0x85
    || eqb n 0xA0
    || eqb n 0x1680
    || (leb 0x2000 n && leb n 0x200A)
    || eqb n 0x2028
    || eqb n 0x2029
    || eqb n 0x202F
    || eqb n 0x205F
    || eqb n 0x3000
  where
    n : ℕ
    n = code c

trim_left : String → String
trim_left String.[] = ""
trim_left (String.◌∷◌ c s) = if is_space c then trim_left s else String.◌∷◌ c s

trim_right : String → String
trim_right String.[] = ""
trim_right (String.◌∷◌ c s) =
    let rest = trim_right s in if is_space c && (rest == "") then "" else String.◌∷◌ c rest

-- strings.TrimSpace
unfoldable pub trim_space : String → String
unfolding trim_left trim_right is_space
trim_space s = trim_right (trim_left s)

-- strings.TrimRight(s, "/")
unfoldable pub trim_slashes : String → String
trim_slashes String.[] = ""
trim_slashes (String.◌∷◌ c s) =
    let rest = trim_slashes s in if eqb (code c) b'/' && (rest == "") then "" else String.◌∷◌ c rest

-- strings.SplitN(s, ":", 2)[0]
unfoldable pub before_colon : String → String
before_colon String.[] = ""
before_colon (String.◌∷◌ c s) =
    let rest = before_colon s in if eqb (code c) b':' then "" else String.◌∷◌ c rest

-- The first text that is not blank, trimmed.
unfoldable pub first_non_empty : List String → String
first_non_empty [] = ""
first_non_empty (v ∷ vs) = if trim_space v == "" then first_non_empty vs else trim_space v

-- strings.EqualFold
unfoldable pub equal_fold : String → String → Bool
unfolding to_lower
equal_fold s t = to_lower s == to_lower t

-- strings.Contains, the text searched first
unfoldable pub contains : String → String → Bool
contains String.[] t = t == ""
contains (String.◌∷◌ c s) t = starts_with (String.◌∷◌ c s) t || contains s t

-- strings.Join by one blank
unfoldable pub join_blank : List String → String
join_blank [] = ""
join_blank (s ∷ []) = s
join_blank (s ∷ t ∷ ts) = s ++ (" " ++ join_blank (t ∷ ts))

-- A Go `switch` on a text: the first case that lists it, or the default.
unfoldable pub switch {ℓ} : {A : Type ℓ} → String → List (List String × A) → A → A
unfolding member
switch t [] d = d
switch t ((keys, a) ∷ cases) d = if member t keys then a else switch t cases d
