-- ===== src/Bytes/Decimal.antt =====
-- Reading back what `decimal` prints.
use levin.Prelude.{
  ℕ, zero, suc, ◌+◌, ◌-◌, ◌*◌, ◌/◌, ◌%◌, ◌<◌, ◌≤◌, ◌≡◌, refl, sym, ap, ◌∙◌, inl, inr, [], ◌∷◌, ◌++◌,
  arith, All, All-append, ltb, Bool-cases,
}
use levin.Bytes.{Bytes, decimal, digits_from}

-- The number that decimal digits stand for, read from the left after `acc`.
abbrev pub number_from : ℕ → Bytes → ℕ
number_from acc [] = acc
number_from acc (c ∷ s) = number_from (acc * 10 + (c - 48)) s

abbrev pub IsDigit : ℕ → Type 0
IsDigit c = (48 ≤ c) × (c ≤ 57)

number_from-append :
    (acc : ℕ) (s : Bytes) (c : ℕ)
    → number_from acc (s ++ c ∷ []) ≡ number_from acc s * 10 + (c - 48)
number_from-append acc [] c = refl
number_from-append acc (d ∷ s) c = number_from-append (acc * 10 + (d - 48)) s c

number_from-digits : (f n : ℕ) → n < f → number_from 0 (digits_from f n) ≡ n
unfolding digits_from
number_from-digits zero n h = absurd (omega arith)
number_from-digits (suc f) n h = elim (Bool-cases (ltb n 10)) [
  | inl small ↦ rw small (omega arith)
  | inr large ↦ rw large (
      number_from-append 0 (digits_from f (n / 10)) (48 + n % 10)
      ∙ below (number_from-digits f (n / 10) (ground arith)))
]
  where
    below :
        number_from 0 (digits_from f (n / 10)) ≡ n / 10
        → number_from 0 (digits_from f (n / 10)) * 10 + (48 + n % 10 - 48) ≡ n
    below e = omega arith

pub number_from-decimal : (n : ℕ) → number_from 0 (decimal n) ≡ n
unfolding decimal
number_from-decimal n = number_from-digits (suc n) n (omega arith)

digits_from-IsDigit : (f n : ℕ) → All IsDigit (digits_from f n)
unfolding digits_from
digits_from-IsDigit zero n = tt
digits_from-IsDigit (suc f) n = elim (Bool-cases (ltb n 10)) [
  | inl small ↦ rw small ((omega arith, ground arith), tt)
  | inr large ↦ rw large (
      All-append IsDigit (digits_from f (n / 10)) _ (digits_from-IsDigit f (n / 10))
        ((omega arith, omega arith), tt))
]

pub decimal-IsDigit : (n : ℕ) → All IsDigit (decimal n)
unfolding decimal
decimal-IsDigit n = digits_from-IsDigit (suc n) n

pub decimal_injective : (m n : ℕ) → decimal m ≡ decimal n → m ≡ n
decimal_injective m n e = sym (number_from-decimal m) ∙ ap (number_from 0) e ∙ number_from-decimal n
