-- ===== src/Bytes/Split.antt =====
-- Splitting at a byte, and stripping.
use levin.Prelude.{ℕ, ◌≡◌, refl, ◌≢◌, false, none, some, [], ◌∷◌, ◌++◌, reverse, arith, All}
use mathlib.Core.List.{reverse-reverse}
use levin.Bytes.{Bytes, split, split_once, strip, lstrip, is_space}

abbrev pub Lacks : ℕ → Bytes → Type 0
Lacks sep s = All (λ c. c ≢ sep) s

pub split_once-append :
    (sep : ℕ) (a b : Bytes) → Lacks sep a → split_once sep (a ++ sep ∷ b) ≡ some (a, b)
unfolding split_once
split_once-append sep [] b h = ground arith
split_once-append sep (c ∷ a) b (p, h) = ground (arith, split_once-append sep a b h)

pub split_once-Lacks : (sep : ℕ) (a : Bytes) → Lacks sep a → split_once sep a ≡ none
unfolding split_once
split_once-Lacks sep [] h = refl
split_once-Lacks sep (c ∷ a) (p, h) = ground (arith, split_once-Lacks sep a h)

pub split-append :
    (sep : ℕ) (a b : Bytes) → Lacks sep a → split sep (a ++ sep ∷ b) ≡ a ∷ split sep b
unfolding split
split-append sep [] b h = ground arith
split-append sep (c ∷ a) b (p, h) = ground (arith, split-append sep a b h)

pub split-Lacks : (sep : ℕ) (a : Bytes) → Lacks sep a → split sep a ≡ a ∷ []
unfolding split
split-Lacks sep [] h = refl
split-Lacks sep (c ∷ a) (p, h) = ground (arith, split-Lacks sep a h)

-- Without whitespace at its ends a text is its own strip.
abbrev pub StartsClean : Bytes → Type 0
StartsClean [] = Unit
StartsClean (c ∷ s) = is_space c ≡ false

abbrev pub IsTrimmed : Bytes → Type 0
IsTrimmed s = StartsClean s × StartsClean (reverse s)

pub lstrip_clean : (s : Bytes) → StartsClean s → lstrip s ≡ s
unfolding lstrip
lstrip_clean [] h = refl
lstrip_clean (c ∷ s) h = rw h

pub strip_trimmed : (s : Bytes) → IsTrimmed s → strip s ≡ s
unfolding strip
strip_trimmed s (h, k) = rw (lstrip_clean s h, lstrip_clean (reverse s) k, reverse-reverse)

-- One space in front is taken off.
pub strip_space : (s : Bytes) → IsTrimmed s → strip (32 ∷ s) ≡ s
unfolding strip
strip_space s (h, k) =
    unfold lstrip in rw (lstrip_clean s h, lstrip_clean (reverse s) k, reverse-reverse)
