-- ===== src/Router/Slash.antt =====
-- levin/components/router.py: which paths an `EqualsCondition` takes for its pattern.
use levin.Prelude.{
  ◌≡◌, ◌⊎◌, ◌↔◌, refl, sym, ap, ◌∙◌, true, false, List, [], ◌∷◌, ◌++◌, inl, inr, Bool-cases,
  reverse, if◌then◌else◌,
}
use mathlib.Core.List.{reverse-append, reverse-reverse}
use levin.Bytes.{Bytes, codes, eqb, ends_with, starts_with}
use levin.Bytes.Equality.{eqb_iff}
use levin.Router.{slash_append}

abbrev pub slash : Bytes
slash = codes "/"

pub ends_with-append : (s : Bytes) → ends_with slash (s ++ slash) ≡ true
unfolding ends_with
ends_with-append s = rw (reverse-append s slash) (unfold starts_with in refl)

snoc_injective {ℓ} : {A : Type ℓ} (s t : List A) (a : A) → s ++ a ∷ [] ≡ t ++ a ∷ [] → s ≡ t
snoc_injective s t a e =
    let same : reverse s ≡ reverse t =
      cc (ap reverse e, reverse-append s (a ∷ []), reverse-append t (a ∷ [])) in
    sym (reverse-reverse s) ∙ ap reverse same ∙ reverse-reverse t

-- The two are one path, or differ by a slash at the end of one of them.
abbrev pub AreSamePath : Bytes → Bytes → Type 0
AreSamePath p q =
    (p ≡ q)
    ⊎ (((p ≡ q ++ codes "/") × (ends_with (codes "/") q ≡ false))
        ⊎ ((q ≡ p ++ codes "/") × (ends_with (codes "/") p ≡ false)))

with_slash : Bytes → Bytes
with_slash s = if ends_with slash s then s else s ++ slash

same_of_with_slash : (p q : Bytes) → with_slash p ≡ with_slash q → AreSamePath p q
unfolding with_slash
same_of_with_slash p q e = elim (Bool-cases (ends_with slash p)) [
  | inl pe ↦ elim (Bool-cases (ends_with slash q)) [
    | inl qe ↦ inl (rw (pe, qe) at e)
    | inr qe ↦ inr (inl (rw (pe, qe) at e, qe))
  ]
  | inr pe ↦ elim (Bool-cases (ends_with slash q)) [
    | inl qe ↦ inr (inr (sym (rw (pe, qe) at e), pe))
    | inr qe ↦ inl (snoc_injective p q b'/' (rw (pe, qe) at e))
  ]
]

with_slash_of_same : (p q : Bytes) → AreSamePath p q → with_slash p ≡ with_slash q
unfolding with_slash
with_slash_of_same p q (inl e) = rw e
with_slash_of_same p q (inr (inl (e, qe))) = rw (e, ends_with-append q, qe)
with_slash_of_same p q (inr (inr (e, pe))) = rw (e, ends_with-append p, pe)

-- The pattern of an `EqualsCondition` and a path agree exactly when they are equal or one of them, which
-- does not end with a slash, gets one.
pub slash_append_iff :
    (p q : Bytes) → (eqb (slash_append p) (slash_append q) ≡ true) ↔ AreSamePath p q
unfolding slash_append with_slash
slash_append_iff p q = (
  λ h.
      same_of_with_slash p q
        (snoc_injective (with_slash p) (with_slash q) b'?' ((eqb_iff _ _).0 h)),
  λ h. (eqb_iff _ _).1 (ap (λ s. s ++ codes "?") (with_slash_of_same p q h)),
)
