-- ===== src/Router/Regexp/Matched.antt =====
-- levin/components/router.py: what `fullmatch` finds in a path that fills a pattern.
use levin.Prelude.{
  ℕ, ◌≡◌, refl, ap, ◌∙◌, Bool, true, not, Option, none, some, List, [], ◌∷◌, ◌++◌, append_assoc,
  arith, ==_refl, inl, inr, ◌⊎◌,
}
use levin.Bytes.{Bytes, codes}
use levin.Router.Regexp.{is_word, opt}
use levin.Router.Regexp.Groups.{IsWordText}
use levin.Router.Regexp.Pieces.{Piece, byte, hole, items_of}
use levin.Router.Regexp.{match_group, capture, or_else, fullmatch, Groups}
use levin.Router.Regexp.Pieces.{fill, groups_of, IsApart, AreFilled}

-- A text in which no group goes on.
abbrev ends_word : Bytes → Bool
ends_word [] = true
ends_word (c ∷ s) = not (is_word c)

match_group-none :
    (name taken : Bytes) (rest : Bytes → Option Groups) (s : Bytes)
    → ends_word s ≡ true
    → match_group name taken rest s ≡ none
unfolding match_group
match_group-none name taken rest [] h = refl
match_group-none name taken rest (c ∷ s) h = ground (arith, h)

match_group-here :
    (name taken : Bytes) (rest : Bytes → Option Groups) (c : ℕ) (s : Bytes)
    → is_word c ≡ true
    → match_group name taken rest (c ∷ s)
      ≡ or_else
          (match_group name (taken ++ c ∷ []) rest s)
          (capture name (taken ++ c ∷ []) (rest s))
unfolding match_group
match_group-here name taken rest c s h = rw h refl

match_group-word :
    (name taken : Bytes) (rest : Bytes → Option Groups) (w s : Bytes) (others : Groups)
    → IsWordText w
    → ends_word s ≡ true
    → rest s ≡ some others
    → match_group name taken rest (w ++ s) ≡ some ((name, taken ++ w) ∷ others)
unfolding or_else capture
match_group-word name taken rest [] s others w e r = cc (w.0)
match_group-word name taken rest (c ∷ []) s others w e r =
    match_group-here name taken rest c s w.1.0
    ∙ rw (match_group-none name (taken ++ c ∷ []) rest s e, r) refl
match_group-word name taken rest (c ∷ d ∷ v) s others w e r =
    match_group-here name taken rest c (d ∷ (v ++ s)) w.1.0
    ∙ ap (λ (o : Option Groups). or_else o (capture name (taken ++ c ∷ []) (rest (d ∷ (v ++ s)))))
        (match_group-word name (taken ++ c ∷ []) rest (d ∷ v) s others (refl, w.1.1) e r)
    ∙ ap (λ (x : Bytes). some ((name, x) ∷ others)) (append_assoc taken (c ∷ []) (d ∷ v))

fill-ends_word :
    (value_of : Bytes → Bytes) (pieces : List Piece) (tail : Bytes)
    → IsApart value_of pieces
    → ends_word tail ≡ true
    → ends_word (fill value_of pieces ++ tail) ≡ true
fill-ends_word value_of [] tail h e = e
fill-ends_word value_of (byte c ∷ pieces) tail h e = ap not h
fill-ends_word value_of (hole name ∷ pieces) tail h e = absurd h

-- A path that fills the pattern is matched, and each group has its argument's text, whether a slash stands at
-- the end or not.
pub fullmatch-fill :
    (value_of : Bytes → Bytes) (pieces : List Piece) (tail : Bytes)
    → AreFilled value_of pieces
    → (tail ≡ codes "/") ⊎ (tail ≡ [])
    → fullmatch (items_of pieces ++ opt b'/' ∷ []) (fill value_of pieces ++ tail)
      ≡ some (groups_of value_of pieces)
unfolding fullmatch or_else
fullmatch-fill value_of [] tail h (inl e) = rw e refl
fullmatch-fill value_of [] tail h (inr e) = rw e refl
fullmatch-fill value_of (byte c ∷ pieces) tail h t =
    rw (==_refl c) (fullmatch-fill value_of pieces tail h t)
fullmatch-fill value_of (hole name ∷ pieces) tail h t =
    ap (fullmatch (items_of (hole name ∷ pieces) ++ opt b'/' ∷ []))
      (append_assoc (value_of name) (fill value_of pieces) tail)
    ∙ match_group-word name [] (fullmatch (items_of pieces ++ opt b'/' ∷ [])) (value_of name)
        (fill value_of pieces ++ tail) (groups_of value_of pieces) h.0.0
        (fill-ends_word value_of pieces tail h.0.1 (tail_ends t))
        (fullmatch-fill value_of pieces tail h.1 t)
  where
    tail_ends : (tail ≡ codes "/") ⊎ (tail ≡ []) → ends_word tail ≡ true
    tail_ends (inl e) = rw e refl
    tail_ends (inr e) = rw e refl
