-- ===== src/Profile/Lines/Order.antt =====
-- levin/utils/profile.py: the order of `get_lines`.
use levin.Prelude.{
  ◌≡◌, refl, ap, ◌∙◌, Bool, true, false, ◌||◌, List, [], ◌∷◌, map, Bool-cases, inl, inr, arith,
}
use levin.Profile.{CallResult}
use levin.Profile.Lines.{Key, key_of, same_key, precedes, insert, sorted}
use levin.Profile.Lines.Keys.{member, or_swap}

-- Each line precedes the one behind it.
abbrev pub IsSorted : List CallResult → Type 0
IsSorted [] = Unit
IsSorted (c ∷ []) = Unit
IsSorted (c ∷ d ∷ calls) = (precedes c d ≡ true) × IsSorted (d ∷ calls)

precedes_total : (c d : CallResult) → precedes c d ≡ false → precedes d c ≡ true
unfolding precedes
precedes_total c d h = ground arith

insert-IsSorted :
    (c : CallResult) (calls : List CallResult) → IsSorted calls → IsSorted (insert c calls)
unfolding insert
insert-IsSorted c [] h = tt
insert-IsSorted c (d ∷ []) h = elim (Bool-cases (precedes c d)) [
  | inl e ↦ rw e (e, tt)
  | inr e ↦ rw e (precedes_total c d e, tt)
]
insert-IsSorted c (d ∷ d' ∷ calls) h = elim (Bool-cases (precedes c d)) [
  | inl e ↦ rw e (e, h)
  | inr e ↦ rw e (behind (insert-IsSorted c (d' ∷ calls) h.1) (precedes_total c d e))
]
  where
    behind :
        IsSorted (insert c (d' ∷ calls))
        → precedes d c ≡ true
        → IsSorted (d ∷ insert c (d' ∷ calls))
    behind s before = elim (Bool-cases (precedes c d')) [
      | inl e ↦ rw e (before, (rw e at s))
      | inr e ↦ rw e (h.0, (rw e at s))
    ]

pub sorted-IsSorted : (calls : List CallResult) → IsSorted (sorted calls)
unfolding sorted
sorted-IsSorted [] = tt
sorted-IsSorted (c ∷ calls) = insert-IsSorted c (sorted calls) (sorted-IsSorted calls)

member-insert :
    (k : Key) (c : CallResult) (calls : List CallResult)
    → member k (map key_of (insert c calls)) ≡ member k (map key_of (c ∷ calls))
unfolding insert
member-insert k c [] = refl
member-insert k c (d ∷ calls) = elim (Bool-cases (precedes c d)) [
  | inl e ↦ rw e refl
  | inr e ↦ rw e (
      ap (λ (b : Bool). same_key (key_of d) k || b) (member-insert k c calls)
      ∙ or_swap (same_key (key_of d) k) (same_key (key_of c) k) (member k (map key_of calls)))
]

pub member-sorted :
    (k : Key) (calls : List CallResult)
    → member k (map key_of (sorted calls)) ≡ member k (map key_of calls)
unfolding sorted
member-sorted k [] = refl
member-sorted k (c ∷ calls) =
    member-insert k c (sorted calls)
    ∙ ap (λ (b : Bool). same_key (key_of c) k || b) (member-sorted k calls)
