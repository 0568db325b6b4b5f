-- ===== src/Base/Maps.antt =====
-- Go maps with text keys: an association list with one entry for each key, and a set of texts.
-- Reading a missing key gives `none`; a caller that reads Go's zero value says so.
use text.Mathlib.Text.{◌==◌}
use dmz_collector.Base.Tests.{if◌then◌else◌}
use text.Mathlib.TextPositions.{eq_refl}
use native.Mathlib.Omega.{arith}
use mathlib.Core.List.{List, [], ◌∷◌, ◌++◌}
use Prim.Native.String.{String}
use mathlib.Core.Option.{Option, none, some}
use text.Mathlib.TextEquality.{eq_iff}
use mathlib.Core.Bool.{Bool, true, false}
use mathlib.Core.Path.{◌≡◌, refl}
use mathlib.Core.Logic.{◌≢◌}

-- Sets of texts.
unfoldable pub member : String → List String → Bool
member k [] = false
member k (j ∷ s) = if j == k then true else member k s

unfoldable pub discard : String → List String → List String
discard k [] = []
discard k (j ∷ s) = if j == k then discard k s else j ∷ discard k s

pub member-discard :
    (k j : String) (s : List String)
    → member j (discard k s) ≡ (if k == j then false else member j s)
unfolding member discard
member-discard k j [] = ground arith
member-discard k j (i ∷ s) =
    ground (arith, eq_iff k j, eq_iff i k, eq_iff i j, member-discard k j s)

pub member-append_self : (k : String) (s : List String) → member k (k ∷ s) ≡ true
unfolding member
member-append_self k s = rw eq_refl

-- Maps from texts.
abbrev pub Map {ℓ} : Type ℓ → Type ℓ
Map V = List (String × V)

module _ {ℓ} {V : Type ℓ} where
  -- m[key] = val: the entry keeps its place, and a new one is the last.
  unfoldable pub insert : String → V → Map V → Map V
  insert key val [] = (key, val) ∷ []
  insert key val ((other, old) ∷ rest) =
      if other == key then (key, val) ∷ rest else (other, old) ∷ insert key val rest

  -- val, ok := m[key]
  unfoldable pub lookup : String → Map V → Option V
  lookup key [] = none
  lookup key ((other, val) ∷ rest) = if other == key then some val else lookup key rest

  -- No key has two entries.
  abbrev pub Distinct : Map V → Type ℓ
  Distinct [] = Unit
  Distinct ((key, val) ∷ rest) = (lookup key rest ≡ none) × Distinct rest

  pub insert_new :
      (key : String) (val : V) (m : Map V)
      → lookup key m ≡ none
      → insert key val m ≡ m ++ (key, val) ∷ []
  unfolding lookup insert
  insert_new key val [] free = refl
  insert_new key val ((other, old) ∷ rest) free = ground (arith, insert_new key val rest)

  pub lookup-append_none :
      (key : String) (m n : Map V) → lookup key m ≡ none → lookup key (m ++ n) ≡ lookup key n
  unfolding lookup
  lookup-append_none key [] n free = refl
  lookup-append_none key ((other, val) ∷ rest) n free =
      ground (arith, lookup-append_none key rest n)

  -- Only the key that is written changes what a read finds.
  pub lookup-insert :
      (key asked : String) (val : V) (m : Map V)
      → lookup asked (insert key val m) ≡ (if key == asked then some val else lookup asked m)
  unfolding insert lookup
  lookup-insert key asked val [] = refl
  lookup-insert key asked val ((other, old) ∷ rest) =
      let inner = lookup-insert key asked val rest in
      ground (arith, eq_iff other asked, eq_iff key asked, eq_iff other key, inner)

  pub lookup-insert_ne :
      (key asked : String) (val : V) (m : Map V)
      → key ≢ asked
      → lookup asked (insert key val m) ≡ lookup asked m
  lookup-insert_ne key asked val m h = rw lookup-insert (ground (arith, eq_iff key asked))

  pub lookup-insert_self :
      (key : String) (val : V) (m : Map V) → lookup key (insert key val m) ≡ some val
  lookup-insert_self key val m = simp (lookup-insert, eq_refl)

  pub insert-Distinct :
      (key : String) (val : V) (m : Map V) → Distinct m → Distinct (insert key val m)
  unfolding insert lookup
  insert-Distinct key val [] d = (refl, tt)
  insert-Distinct key val ((other, old) ∷ rest) d = ground (
    arith,
    insert-Distinct key val rest d.1,
    lookup-insert key other val rest,
    eq_iff key other,
    eq_iff other key,
  )
