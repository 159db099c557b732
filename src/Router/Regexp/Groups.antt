-- ===== src/Router/Regexp/Groups.antt =====
-- levin/components/router.py: what `fullmatch` means on the patterns of the router.
use levin.Prelude.{
  ℕ, ◌≡◌, ◌≢◌, ◌⊎◌, refl, ap, ◌∙◌, true, false, Option, none, some, List, [], ◌∷◌, ◌++◌,
  append_assoc, arith, All, inl, inr, Bool-cases, is_empty, ◌==◌, ==_iff, ==_refl,
}
use levin.Bytes.{Bytes}
use levin.Router.Regexp.{
  Item, lit, opt, any, group, Groups, is_word, match_group, capture, or_else, fullmatch, head_is,
  rest_of,
}

-- The text of a group: at least one byte of its class, and no other.
abbrev pub IsWordText : Bytes → Type 0
IsWordText w = (is_empty w ≡ false) × All (λ c. is_word c ≡ true) w

-- The items spell the text, and the groups' texts are those listed, in order.
abbrev pub Spells : List Item → Bytes → Groups → Type 0
Spells [] s groups = (s ≡ []) × (groups ≡ [])
Spells (lit b ∷ items) s groups = (t : Bytes) × (s ≡ b ∷ t) × Spells items t groups
Spells (opt b ∷ items) s groups =
    ((t : Bytes) × (s ≡ b ∷ t) × Spells items t groups) ⊎ Spells items s groups
Spells (any ∷ items) s groups =
    (c : ℕ) × (t : Bytes) × (c ≢ 10) × (s ≡ c ∷ t) × Spells items t groups
Spells (group name ∷ items) s groups =
    (w : Bytes) × (t : Bytes) × (others : Groups) × IsWordText w
    × (s ≡ w ++ t)
    × (groups ≡ (name, w) ∷ others)
    × Spells items t others

-- A group's match: a word text, and the rest matched behind it.
abbrev Took : Bytes → Bytes → (Bytes → Option Groups) → Bytes → Groups → Type 0
Took name taken rest s groups =
    (w : Bytes) × (t : Bytes) × (others : Groups) × IsWordText w
    × (s ≡ w ++ t)
    × (groups ≡ (name, taken ++ w) ∷ others)
    × (rest t ≡ some others)

or_else-cases :
    (a b : Option Groups) (g : Groups) → or_else a b ≡ some g → (a ≡ some g) ⊎ (b ≡ some g)
unfolding or_else
or_else-cases none b g e = inr e
or_else-cases (some h) b g e = inl e

capture-some :
    (name text : Bytes) (o : Option Groups) (g : Groups)
    → capture name text o ≡ some g
    → (others : Groups) × (o ≡ some others) × (g ≡ (name, text) ∷ others)
unfolding capture
capture-some name text none g e = cc
capture-some name text (some others) g e = (others, refl, cc)

match_group_sound :
    (name taken : Bytes) (rest : Bytes → Option Groups) (s : Bytes) (groups : Groups)
    → match_group name taken rest s ≡ some groups
    → Took name taken rest s groups
unfolding match_group
match_group_sound name taken rest [] groups e = cc
match_group_sound name taken rest (c ∷ s) groups e = elim (Bool-cases (is_word c)) [
  | inl word ↦ elim (or_else-cases _ _ groups (rw word at e)) [
    | inl longer ↦
        let (w, t, others, (full, words), split, named, matched) =
          match_group_sound name (taken ++ c ∷ []) rest s groups longer in
        (
          c ∷ w,
          t,
          others,
          (refl, (word, words)),
          ap (λ l. c ∷ l) split,
          named ∙ ap (λ l. (name, l) ∷ others) (append_assoc taken (c ∷ []) w),
          matched,
        )
    | inr here ↦
        let (others, matched, named) = capture-some name (taken ++ c ∷ []) (rest s) groups here in
        (c ∷ [], s, others, (refl, (word, tt)), refl, named, matched)
  ]
  | inr other ↦ cc (rw other at e)
]

head_is-true : (b : ℕ) (s : Bytes) → head_is b s ≡ true → s ≡ b ∷ rest_of s
head_is-true b [] h = cc
head_is-true b (c ∷ s) h = ap (λ x. x ∷ s) ((==_iff c b).0 h)

-- Whatever `fullmatch` finds is spelled by the pattern: the whole text is used, each group took at least
-- one byte of its class, and the groups are listed in the order of the pattern.
pub fullmatch_sound :
    (items : List Item) (s : Bytes) (groups : Groups)
    → fullmatch items s ≡ some groups
    → Spells items s groups
unfolding fullmatch
fullmatch_sound [] [] groups e = (refl, cc)
fullmatch_sound [] (c ∷ s) groups e = cc
fullmatch_sound (lit b ∷ items) s groups e = elim (Bool-cases (head_is b s)) [
  | inl h ↦ (rest_of s, head_is-true b s h, fullmatch_sound items (rest_of s) groups (rw h at e))
  | inr h ↦ cc (rw h at e)
]
fullmatch_sound (opt b ∷ items) s groups e = elim (Bool-cases (head_is b s)) [
  | inl h ↦ elim (or_else-cases _ _ groups (rw h at e)) [
    | inl taken ↦
        inl (rest_of s, head_is-true b s h, fullmatch_sound items (rest_of s) groups taken)
    | inr left ↦ inr (fullmatch_sound items s groups left)
  ]
  | inr h ↦ inr (fullmatch_sound items s groups (rw h at e))
]
fullmatch_sound (any ∷ items) [] groups e = cc
fullmatch_sound (any ∷ items) (c ∷ s) groups e = elim (Bool-cases (c == 10)) [
  | inl h ↦ cc (rw h at e)
  | inr h ↦ (c, s, ground (arith), refl, fullmatch_sound items s groups (rw h at e))
]
fullmatch_sound (group name ∷ items) s groups e =
    let (w, t, others, word, split, named, matched) =
      match_group_sound name [] (fullmatch items) s groups e in
    (w, t, others, word, split, named, fullmatch_sound items t others matched)

or_else-right : (a b : Option Groups) → b ≢ none → or_else a b ≢ none
unfolding or_else
or_else-right none b h = h
or_else-right (some g) b h = λ e. cc e

or_else-left : (a b : Option Groups) → a ≢ none → or_else a b ≢ none
unfolding or_else
or_else-left none b h = absurd (h refl)
or_else-left (some g) b h = λ e. cc e

capture-ne-none : (name text : Bytes) (o : Option Groups) → o ≢ none → capture name text o ≢ none
unfolding capture
capture-ne-none name text none h = absurd (h refl)
capture-ne-none name text (some g) h = λ e. cc e

match_group_complete :
    (name taken : Bytes) (rest : Bytes → Option Groups) (w t : Bytes)
    → IsWordText w
    → rest t ≢ none
    → match_group name taken rest (w ++ t) ≢ none
unfolding match_group
match_group_complete name taken rest [] t (empty, _) h = cc
match_group_complete name taken rest (c ∷ []) t (_, (word, _)) h =
    rw word (or_else-right _ _ (capture-ne-none name _ (rest t) h))
match_group_complete name taken rest (c ∷ d ∷ w) t (_, (word, words)) h =
    rw word (
      or_else-left _ _ (match_group_complete name (taken ++ c ∷ []) rest (d ∷ w) t (refl, words) h))

-- Whatever the pattern spells is matched, if perhaps with other texts for the groups.
pub fullmatch_complete :
    (items : List Item) (s : Bytes) (groups : Groups)
    → Spells items s groups
    → fullmatch items s ≢ none
unfolding fullmatch
fullmatch_complete [] s groups (e, _) = rw e (λ h. cc h)
fullmatch_complete (lit b ∷ items) s groups (t, e, h) =
    rw (e, ==_refl b) (fullmatch_complete items t groups h)
fullmatch_complete (opt b ∷ items) s groups (inl (t, e, h)) =
    rw (e, ==_refl b) (or_else-left _ _ (fullmatch_complete items t groups h))
fullmatch_complete (opt b ∷ items) s groups (inr h) = elim (Bool-cases (head_is b s)) [
  | inl e ↦ rw e (or_else-right _ _ (fullmatch_complete items s groups h))
  | inr e ↦ rw e (fullmatch_complete items s groups h)
]
fullmatch_complete (any ∷ items) s groups (c, t, ne, e, h) =
    let other : (c == 10) ≡ false = ground arith in
    rw (e, other) (fullmatch_complete items t groups h)
fullmatch_complete (group name ∷ items) s groups (w, t, others, word, e, _, h) =
    rw e (
      match_group_complete name [] (fullmatch items) w t word (fullmatch_complete items t others h))
