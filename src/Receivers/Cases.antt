-- ===== src/Receivers/Cases.antt =====
-- A Go `switch` over conditions, as the receivers of internal/ingest classify texts.
use dmz_collector.Base.{
  Bool, true, List, [], ◌∷◌, ◌≡◌, arith, if◌then◌else◌, Bool-cases, inl, inr, all,
}

-- The answer of the first test that holds.
unfoldable pub first_case {ℓ} : {A : Type ℓ} → List (Bool × A) → A → A
first_case [] d = d
first_case ((test, a) ∷ cases) d = if test then a else first_case cases d

-- A property that all the cases and the default pass is passed by the answer.
pub first_case-all {ℓ} :
    {A : Type ℓ} (q : A → Bool) (cases : List (Bool × A)) (d : A)
    → all (λ c. q c.1) cases ≡ true
    → q d ≡ true
    → q (first_case cases d) ≡ true
unfolding first_case
first_case-all q [] d h k = k
first_case-all q ((test, a) ∷ cases) d h k = elim (Bool-cases test) [
  | inl hit ↦ rw hit (ground arith)
  | inr miss ↦ rw miss (first_case-all q cases d (ground arith) k)
]
