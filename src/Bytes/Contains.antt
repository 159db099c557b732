-- ===== src/Bytes/Contains.antt =====
-- Parts of texts, and of the longer texts that these make up.
use levin.Prelude.{
  ◌≡◌, refl, Bool, true, ◌||◌, [], ◌∷◌, ◌++◌, false, and-true, Bool-cases, inl, inr, ◌==◌, ap, ◌∙◌,
}
use levin.Bytes.{Bytes, starts_with, contains}

or_true : (b : Bool) → (b || true) ≡ true
or_true true = refl
or_true false = refl

starts_with-append : (p s t : Bytes) → starts_with p s ≡ true → starts_with p (s ++ t) ≡ true
unfolding starts_with
starts_with-append [] s t h = refl
starts_with-append (x ∷ p) [] t h = cc h
starts_with-append (x ∷ p) (c ∷ s) t h =
    let (a, b) = and-true (x == c) (starts_with p s) h in rw (a, starts_with-append p s t b) refl

contains-empty : (t : Bytes) → contains [] t ≡ true
unfolding contains
contains-empty [] = refl
contains-empty (c ∷ t) = refl

-- Of a text at its front
pub contains-before : (p s t : Bytes) → contains p s ≡ true → contains p (s ++ t) ≡ true
unfolding contains
contains-before [] [] t h = contains-empty t
contains-before (x ∷ p) [] t h = cc h
contains-before p (c ∷ s) t h = elim (Bool-cases (starts_with p (c ∷ s))) [
  | inl e ↦ rw (starts_with-append p (c ∷ s) t e) refl
  | inr e ↦
      ap (λ (b : Bool). starts_with p (c ∷ (s ++ t)) || b) (contains-before p s t (rw e at h))
      ∙ or_true (starts_with p (c ∷ (s ++ t)))
]

-- Of a text at its end
pub contains-behind : (p a s : Bytes) → contains p s ≡ true → contains p (a ++ s) ≡ true
unfolding contains
contains-behind p [] s h = h
contains-behind p (c ∷ a) s h =
    ap (λ (b : Bool). starts_with p (c ∷ (a ++ s)) || b) (contains-behind p a s h)
    ∙ or_true (starts_with p (c ∷ (a ++ s)))
