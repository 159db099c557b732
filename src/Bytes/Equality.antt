-- ===== src/Bytes/Equality.antt =====
-- `eqb` decides equality, and what the byte tests say.
use levin.Prelude.{ℕ, ◌≡◌, refl, ap₂, ◌↔◌, true, [], ◌∷◌, arith, ◌==◌, ==_iff, ==_refl, and-true}
use levin.Bytes.{Bytes, eqb, lower, lower_byte, capitalize, upper_byte}

eq_of_eqb : (a b : Bytes) → eqb a b ≡ true → a ≡ b
eq_of_eqb [] [] h = refl
eq_of_eqb [] (y ∷ ys) h = cc
eq_of_eqb (x ∷ xs) [] h = cc
eq_of_eqb (x ∷ xs) (y ∷ ys) h =
    let (p, q) = and-true (x == y) (eqb xs ys) h in
    ap₂ (λ u v. u ∷ v) ((==_iff x y).0 p) (eq_of_eqb xs ys q)

pub eqb_refl : (a : Bytes) → eqb a a ≡ true
eqb_refl [] = refl
eqb_refl (x ∷ xs) = rw (==_refl x, eqb_refl xs)

pub eqb_iff : (a b : Bytes) → (eqb a b ≡ true) ↔ (a ≡ b)
eqb_iff a b = (eq_of_eqb a b, λ e. rw e (eqb_refl b))

lower_byte_idem : (c : ℕ) → lower_byte (lower_byte c) ≡ lower_byte c
lower_byte_idem c = ground arith

pub lower_idem : (s : Bytes) → lower (lower s) ≡ lower s
unfolding lower
lower_idem [] = refl
lower_idem (c ∷ s) = ap₂ (λ u v. u ∷ v) (lower_byte_idem c) (lower_idem s)

lower-upper_byte : (c : ℕ) → lower_byte (upper_byte c) ≡ lower_byte c
lower-upper_byte c = ground arith

-- Capitalising a header's name changes only its case.
pub lower-capitalize : (s : Bytes) → lower (capitalize s) ≡ lower s
unfolding lower capitalize
lower-capitalize [] = refl
lower-capitalize (c ∷ s) = ap₂ (λ u v. u ∷ v) (lower-upper_byte c) (lower_idem s)
