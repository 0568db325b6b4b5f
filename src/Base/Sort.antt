-- ===== src/Base/Sort.antt =====
-- sort.SliceStable and sort.Slice: an insertion sort that keeps the order of equals.
use mathlib.Core.Path.{◌≡◌, refl}
use mathlib.Core.Bool.{Bool, true, false, not, ◌&&◌}
use mathlib.Core.List.{List, [], ◌∷◌, ◌++◌}
use native.Mathlib.Omega.{arith}
use dmz_collector.Base.Tests.{if◌then◌else◌}
use dmz_collector.Base.Lists.{keep, All}

module _ {ℓ} {A : Type ℓ} (less : A → A → Bool) where
  -- Before the first element that is not less.
  unfoldable pub insert_sorted : A → List A → List A
  insert_sorted x [] = x ∷ []
  insert_sorted x (y ∷ ys) = if less y x then y ∷ insert_sorted x ys else x ∷ y ∷ ys

  unfoldable pub sort : List A → List A
  unfolding insert_sorted
  sort [] = []
  sort (x ∷ xs) = insert_sorted x (sort xs)

-- Sorting by a flag, those that have it first, is a stable partition.
module _ {ℓ} {A : Type ℓ} (flag : A → Bool) where
  abbrev pub flag_first : A → A → Bool
  flag_first x y = flag x && not (flag y)

  insert-partition :
      (x : A) (hs ls : List A)
      → All (λ y. flag y ≡ true) hs
      → All (λ y. flag y ≡ false) ls
      → insert_sorted flag_first x (hs ++ ls) ≡ (if flag x then x ∷ hs ++ ls else hs ++ x ∷ ls)
  unfolding insert_sorted
  insert-partition x [] [] h l = ground arith
  insert-partition x [] (y ∷ ls) h l = ground arith
  insert-partition x (y ∷ hs) ls h l = ground (arith, insert-partition x hs ls h.1 l)

  All-keep-flag : (xs : List A) → All (λ y. flag y ≡ true) (keep flag xs)
  All-keep-flag [] = tt
  All-keep-flag (x ∷ xs) = ground (arith, All-keep-flag xs)

  All-keep-not : (xs : List A) → All (λ y. flag y ≡ false) (keep (λ y. not (flag y)) xs)
  All-keep-not [] = tt
  All-keep-not (x ∷ xs) = ground (arith, All-keep-not xs)

  pub sort-partition :
      (xs : List A) → sort flag_first xs ≡ keep flag xs ++ keep (λ y. not (flag y)) xs
  unfolding sort
  sort-partition [] = refl
  sort-partition (x ∷ xs) = ground (
    arith,
    sort-partition xs,
    insert-partition x (keep flag xs) (keep (λ y. not (flag y)) xs) (All-keep-flag xs)
        (All-keep-not xs),
  )
