-- ===== src/Stats/Top.antt =====
-- topOne of internal/stats/stats.go.
use native.Mathlib.Nat.{le_trans}
use dmz_collector.Base.{
  Distinct, ◌||◌, eq_refl, subst, sym, true, false, ℕ, ◌≤◌, String, [], ◌∷◌, none, some, Map,
  lookup, ◌≡◌, ◌≢◌, arith, All, ◌⊎◌, inl, inr, refl, ◌==◌, eq_iff, ltb, Bool-cases,
}
use dmz_collector.Stats.{top_from, top_one}

module _ (key k : String) (val v : ℕ) (m : Map ℕ) where
  top_from_taken :
      (ltb val v || (key == "")) ≡ true → top_from key val ((k, v) ∷ m) ≡ top_from k v m
  unfolding top_from
  top_from_taken h = rw (h, top_from)

  top_from_passed :
      (ltb val v || (key == "")) ≡ false → top_from key val ((k, v) ∷ m) ≡ top_from key val m
  unfolding top_from
  top_from_passed h = rw (h, top_from)

abbrev Tops : ℕ → Map ℕ → String × ℕ → Type 0
Tops val m t = (val ≤ t.1) × All (λ kv. kv.1 ≤ t.1) m

-- The running maximum bounds what it started from and every count that it passed.
top_from-le :
    (key : String) (val : ℕ) (m : Map ℕ)
    → key ≢ ""
    → All (λ kv. kv.0 ≢ "") m
    → Tops val m (top_from key val m)
unfolding top_from
top_from-le key val [] set h = (omega arith, tt)
top_from-le key val ((k, v) ∷ m) set h = elim (Bool-cases (ltb val v || (key == ""))) [
  | inl taken ↦
      let (below, rest) = top_from-le k v m h.0 h.1 in
      let more : val ≤ v = ground (arith, eq_iff key "") in
      subst (Tops val ((k, v) ∷ m)) (sym (top_from_taken key k val v m taken))
        (le_trans more below, (below, rest))
  | inr passed ↦
      let (below, rest) = top_from-le key val m set h.1 in
      let less : v ≤ val = ground arith in
      subst (Tops val ((k, v) ∷ m)) (sym (top_from_passed key k val v m passed))
        (below, (le_trans less below, rest))
]

lookup_later :
    (k n : String) (v c : ℕ) (m : Map ℕ)
    → lookup k m ≡ none
    → lookup n m ≡ some c
    → lookup n ((k, v) ∷ m) ≡ some c
unfolding lookup
lookup_later k n v c m new there = ground (arith, eq_iff k n)

lookup_head : (k : String) (v : ℕ) (m : Map ℕ) → lookup k ((k, v) ∷ m) ≡ some v
unfolding lookup
lookup_head k v m = rw eq_refl

abbrev IsEntry : Map ℕ → String × ℕ → Type 0
IsEntry m t = lookup t.0 m ≡ some t.1

-- The answer is what the loop started from, or an entry of the map.
top_from-IsEntry :
    (key : String) (val : ℕ) (m : Map ℕ)
    → Distinct m
    → (top_from key val m ≡ (key, val)) ⊎ IsEntry m (top_from key val m)
unfolding top_from
top_from-IsEntry key val [] d = inl refl
top_from-IsEntry key val ((k, v) ∷ m) d = elim (Bool-cases (ltb val v || (key == ""))) [
  | inl taken ↦ rw (top_from_taken key k val v m taken) (
      inr (elim (top_from-IsEntry k v m d.1) [
        | inl start ↦ subst (IsEntry ((k, v) ∷ m)) (sym start) (lookup_head k v m)
        | inr entry ↦ lookup_later k _ v _ m d.0 entry
      ]))
  | inr passed ↦ rw (top_from_passed key k val v m passed) (elim (top_from-IsEntry key val m d.1) [
    | inl start ↦ inl start
    | inr entry ↦ inr (lookup_later k _ v _ m d.0 entry)
  ])
]

-- For a map whose keys are distinct and not empty, in whatever order it is walked, topOne names an
-- entry of the map, and no entry has a higher count.
pub top_one_lem :
    (m : Map ℕ)
    → m ≢ []
    → Distinct m
    → All (λ kv. kv.0 ≢ "") m
    → (lookup (top_one m).0 m ≡ some (top_one m).1) × All (λ kv. kv.1 ≤ (top_one m).1) m
unfolding top_one
top_one_lem [] some_entry d set = absurd (some_entry refl)
top_one_lem ((k, v) ∷ m) some_entry d set =
    let (below, rest) = top_from-le k v m set.0 set.1 in
    let answer = λ (t : String × ℕ). IsEntry ((k, v) ∷ m) t × All (λ kv. kv.1 ≤ t.1) ((k, v) ∷ m) in
    subst answer (sym (top_from_taken "" k 0 v m first))
      (entry (top_from-IsEntry k v m d.1), (below, rest))
  where
    first : (ltb 0 v || ("" == "")) ≡ true
    first = ground arith

    entry :
        (top_from k v m ≡ (k, v)) ⊎ IsEntry m (top_from k v m)
        → IsEntry ((k, v) ∷ m) (top_from k v m)
    entry (inl start) = subst (IsEntry ((k, v) ∷ m)) (sym start) (lookup_head k v m)
    entry (inr there) = lookup_later k _ v _ m d.0 there
