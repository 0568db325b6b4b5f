-- ===== src/Text/Laws.antt =====
-- Laws of the text operations.
use dmz_collector.Base.{
  String, Bool, true, List, [], ◌∷◌, ◌≡◌, Bool-cases, inl, inr, All, eq_refl, member, all, arith,
}
use dmz_collector.Text.{switch, equal_fold}

-- A `switch` has every property that its cases and its default have.
pub switch-All {ℓ κ} :
    {A : Type ℓ} (P : A → Type κ) (t : String) (cases : List (List String × A)) (d : A)
    → All (λ c. P c.1) cases
    → P d
    → P (switch t cases d)
unfolding switch
switch-All P t [] d h p = p
switch-All P t ((keys, a) ∷ cases) d h p = elim (Bool-cases (member t keys)) [
  | inl hit ↦ rw hit h.0
  | inr miss ↦ rw miss (switch-All P t cases d h.1 p)
]

pub equal_fold_refl : (s : String) → equal_fold s s ≡ true
unfolding equal_fold
equal_fold_refl s = eq_refl _

-- So a Boolean property that the cases and the default pass is passed by the result.
pub switch-all {ℓ} :
    {A : Type ℓ} (p : A → Bool) (t : String) (cases : List (List String × A)) (d : A)
    → all (λ c. p c.1) cases ≡ true
    → p d ≡ true
    → p (switch t cases d) ≡ true
unfolding switch
switch-all p t [] d h q = q
switch-all p t ((keys, a) ∷ cases) d h q = elim (Bool-cases (member t keys)) [
  | inl hit ↦ rw hit (ground arith)
  | inr miss ↦ rw miss (switch-all p t cases d (ground arith) q)
]
