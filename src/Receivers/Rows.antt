-- ===== src/Receivers/Rows.antt =====
-- The loops of internal/ingest over the rows of an array and the lines of a text.
use dmz_collector.Base.{
  String, true, List, [], ◌∷◌, ◌≡◌, refl, arith, if◌then◌else◌, ◌==◌, not, keep, Bool-cases, inl,
  inr, All, subst, map, all, ap,
}
use dmz_collector.Text.{trim_space}
use dmz_collector.Text.Parts.{fits_scanner}
use dmz_collector.Receivers.{too_long, no_events, Reading, read, refused}

-- A reading before others.
unfoldable pub joined {ℓ} : {A : Type ℓ} → Reading A → Reading (List A) → Reading (List A)
joined (refused r) rest = refused r
joined (read a) (refused r) = refused r
joined (read a) (read more) = read (a ∷ more)

module _ {ℓ} {A : Type ℓ} (one : String → Reading A) where
  -- The first row that is refused refuses them all.
  unfoldable pub read_rows : List String → Reading (List A)
  unfolding joined
  read_rows [] = read []
  read_rows (row ∷ rows) = joined (one row) (read_rows rows)

  -- Blank lines are passed over; a line beyond the scanner's buffer refuses the body, unless a line
  -- before it was refused.
  unfoldable pub read_lines : List String → Reading (List A)
  unfolding joined
  read_lines [] = read []
  read_lines (l ∷ ls) =
      let rest = read_lines ls in
      let line = trim_space l in
      if fits_scanner l
      then (if line == "" then rest else joined (one line) rest)
      else refused too_long

-- A text that holds no event at all is refused.
unfoldable pub some_of {ℓ} : {A : Type ℓ} → Reading (List A) → Reading (List A)
some_of (read []) = refused no_events
some_of r = r

abbrev pub contents {ℓ} : {A : Type ℓ} → Reading (List A) → List A
contents (refused r) = []
contents (read more) = more

pub read-injective {ℓ} : {A : Type ℓ} {a b : A} → read a ≡ read b → a ≡ b
read-injective {a = a} {b = b} h = ap (λ (r : Reading _). elim r [ read x ↦ x | refused x ↦ a ]) h

module _ {ℓ κ} {A : Type ℓ} (P : A → Type κ) where
  joined-All :
      (x : Reading A) (rest : Reading (List A)) (out : List A)
      → ((a : A) → x ≡ read a → P a)
      → ((more : List A) → rest ≡ read more → All P more)
      → joined x rest ≡ read out
      → All P out
  unfolding joined
  joined-All (refused r) rest out f h made = ground arith
  joined-All (read a) (refused r) out f h made = ground arith
  joined-All (read a) (read more) out f h made =
      subst (All P) (ap contents made) (f a refl, h more refl)

  -- What holds of every row that is read holds of all that a body gives.
  pub read_rows-All :
      (one : String → Reading A) (rows : List String) (out : List A)
      → ((t : String) (a : A) → one t ≡ read a → P a)
      → read_rows one rows ≡ read out
      → All P out
  unfolding read_rows
  read_rows-All one [] out f made = subst (All P) (ap contents made) tt
  read_rows-All one (row ∷ rows) out f made =
      joined-All (one row) (read_rows one rows) out (f row) (λ more. read_rows-All one rows more f)
        made

  pub read_lines-All :
      (one : String → Reading A) (lines : List String) (out : List A)
      → ((t : String) (a : A) → one t ≡ read a → P a)
      → read_lines one lines ≡ read out
      → All P out
  unfolding read_lines
  read_lines-All one [] out f made = subst (All P) (ap contents made) tt
  read_lines-All one (l ∷ ls) out f made =
      let rest = read_lines one ls in
      let line = trim_space l in
      elim (Bool-cases (fits_scanner l)) [
        | inr long ↦ ground arith
        | inl fits ↦ elim (Bool-cases (line == "")) [
          | inl blank ↦ read_lines-All one ls out f (ground arith)
          | inr text ↦
              joined-All (one line) rest out (f line) (λ more. read_lines-All one ls more f)
                (ground arith)
        ]
      ]

  pub some_of-All :
      (r : Reading (List A)) (out : List A)
      → ((more : List A) → r ≡ read more → All P more)
      → some_of r ≡ read out
      → All P out
  unfolding some_of
  some_of-All (refused r) out f made = ground arith
  some_of-All (read []) out f made = ground arith
  some_of-All (read (a ∷ more)) out f made = f out made

-- Lines that all fit and that no reading refuses are read one by one, the blank ones aside.
pub read_lines_total {ℓ} :
    {A : Type ℓ} (f : String → A) (lines : List String)
    → all fits_scanner lines ≡ true
    → read_lines (λ t. read (f t)) lines
      ≡ read (map f (keep (λ t. not (t == "")) (map trim_space lines)))
unfolding read_lines joined
read_lines_total f [] h = refl
read_lines_total f (l ∷ ls) h = ground (arith, read_lines_total f ls)
