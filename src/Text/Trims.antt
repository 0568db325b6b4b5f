-- ===== src/Text/Trims.antt =====
-- strings.TrimSpace leaves a trimmed text alone.
use Prim.Native.Char.{Char}
use dmz_collector.Base.{
  String, ◌&&◌, ◌≡◌, refl, sym, subst, ap, ◌∙◌, false, ◌==◌, Bool-cases, inl, inr,
}
use dmz_collector.Text.{is_space, trim_left, trim_right, trim_space}

trim_right-trim_right : (s : String) → trim_right (trim_right s) ≡ trim_right s
unfolding trim_right
trim_right-trim_right String.[] = refl
trim_right-trim_right (String.◌∷◌ c s) = elim (Bool-cases (is_space c && (trim_right s == ""))) [
  | inl blank ↦ rw blank refl
  | inr kept ↦ rw (kept, trim_right-trim_right s, kept) refl
]

trim_left-cons :
    (c : Char) (s : String) → is_space c ≡ false → trim_left (String.◌∷◌ c s) ≡ String.◌∷◌ c s
unfolding trim_left
trim_left-cons c s solid = rw solid refl

trim_right-cons :
    (c : Char) (s : String)
    → is_space c ≡ false
    → trim_right (String.◌∷◌ c s) ≡ String.◌∷◌ c (trim_right s)
unfolding trim_right
trim_right-cons c s solid = rw solid refl

trim_left-trim_right :
    (s : String) → trim_left (trim_right (trim_left s)) ≡ trim_right (trim_left s)
unfolding trim_left trim_right
trim_left-trim_right String.[] = refl
trim_left-trim_right (String.◌∷◌ c s) = elim (Bool-cases (is_space c)) [
  | inl blank ↦ rw blank (trim_left-trim_right s)
  | inr kept ↦
      subst (λ (t : String). trim_left (trim_right t) ≡ trim_right t)
        (sym (trim_left-cons c s kept))
        (subst (λ (t : String). trim_left t ≡ t) (sym (trim_right-cons c s kept))
          (trim_left-cons c (trim_right s) kept))
]

pub trim_space-trim_space : (s : String) → trim_space (trim_space s) ≡ trim_space s
unfolding trim_space
trim_space-trim_space s =
    ap trim_right (trim_left-trim_right s) ∙ trim_right-trim_right (trim_left s)
