-- ===== src/Router/Url/Format.antt =====
-- levin/components/router.py: `url` formats a pattern.
use levin.Prelude.{
  ℕ, leb, ◌≡◌, refl, sym, ap, ◌∙◌, true, false, some, List, [], ◌∷◌, ◌++◌, append_assoc, append-nil,
  arith, All, All-append, is_empty, ◌==◌, inl, inr, ◌⊎◌,
}
use levin.Bytes.{Bytes, Str, codes, ends_with}
use levin.Bytes.Utf8.{IsAscii}
use levin.Result.{ok}
use levin.Dict.{Dict, lookup}
use levin.Router.{in_text, in_field, drop_backslashes, append_result, or_key_error, format_from}
use levin.Router.Regexp.{is_word}
use levin.Router.Regexp.Pieces.{Piece, byte, hole, print_pieces, IsPattern, plain-not_special, fill}

-- No backslash
abbrev pub IsClean : Bytes → Type 0
IsClean s = All (λ c. (c == 92) ≡ false) s

pub drop_backslashes-IsClean : (s : Bytes) → IsClean s → drop_backslashes s ≡ s
unfolding drop_backslashes
drop_backslashes-IsClean [] h = refl
drop_backslashes-IsClean (c ∷ s) h =
    rw h.0 (ap (λ (x : Bytes). c ∷ x) (drop_backslashes-IsClean s h.1))

word-IsClean : (w : Bytes) → All (λ c. is_word c ≡ true) w → IsClean w
word-IsClean [] h = tt
word-IsClean (c ∷ w) h = (ground (arith, h.0), word-IsClean w h.1)

pub print_pieces-IsClean : (pieces : List Piece) → IsPattern pieces → IsClean (print_pieces pieces)
print_pieces-IsClean [] h = tt
print_pieces-IsClean (byte c ∷ pieces) h =
    ((plain-not_special c h.0).3, print_pieces-IsClean pieces h.1)
print_pieces-IsClean (hole name ∷ pieces) h = (
  refl,
  All-append (λ c. (c == 92) ≡ false) name (b'}' ∷ print_pieces pieces) (word-IsClean name h.0.0.1)
      (refl, print_pieces-IsClean pieces h.1),
)

word-IsAscii : (w : Bytes) → All (λ c. is_word c ≡ true) w → IsAscii w
word-IsAscii [] h = tt
word-IsAscii (c ∷ w) h = (ground (arith, h.0), word-IsAscii w h.1)

pub print_pieces-IsAscii : (pieces : List Piece) → IsPattern pieces → IsAscii (print_pieces pieces)
print_pieces-IsAscii [] h = tt
print_pieces-IsAscii (byte c ∷ pieces) h = (h.0.3, print_pieces-IsAscii pieces h.1)
print_pieces-IsAscii (hole name ∷ pieces) h = (
  refl,
  All-append (λ c. leb c 127 ≡ true) name (b'}' ∷ print_pieces pieces) (word-IsAscii name h.0.0.1)
      (refl, print_pieces-IsAscii pieces h.1),
)

-- The slash at a pattern's end, or none: then the pieces end with none.
abbrev pub IsTail : List Piece → Bytes → Type 0
IsTail pieces tail =
    (tail ≡ codes "/") ⊎ ((tail ≡ []) × (ends_with (codes "/") (print_pieces pieces) ≡ false))

abbrev pub tail_of :
    (pieces : List Piece) (tail : Bytes) → IsTail pieces tail → (tail ≡ codes "/") ⊎ (tail ≡ [])
tail_of pieces tail (inl e) = inl e
tail_of pieces tail (inr (e, apart)) = inr e

module _ (kwargs : Dict Str) (value_of : Bytes → Bytes) where
  -- The keyword arguments hold the text of each argument.
  abbrev pub AreGiven : List Piece → Type 0
  AreGiven [] = Unit
  AreGiven (byte c ∷ pieces) = AreGiven pieces
  AreGiven (hole name ∷ pieces) = (lookup name kwargs ≡ some (value_of name)) × AreGiven pieces

  format_from-byte :
      (c : ℕ) (s : Bytes)
      → (c == b'{') ≡ false
      → (c == b'}') ≡ false
      → format_from kwargs in_text (c ∷ s) ≡ append_result (c ∷ []) (format_from kwargs in_text s)
  unfolding format_from
  format_from-byte c s o e = rw (o, e) refl

  format_from-open :
      (s : Bytes) → format_from kwargs in_text (b'{' ∷ s) ≡ format_from kwargs (in_field []) s
  unfolding format_from
  format_from-open s = refl

  format_from-word :
      (name : Bytes) (c : ℕ) (s : Bytes)
      → is_word c ≡ true
      → format_from kwargs (in_field name) (c ∷ s)
        ≡ format_from kwargs (in_field (name ++ c ∷ [])) s
  unfolding format_from
  format_from-word name c s h = rw h refl

  format_from-name :
      (name w s : Bytes)
      → All (λ c. is_word c ≡ true) w
      → format_from kwargs (in_field name) (w ++ s) ≡ format_from kwargs (in_field (name ++ w)) s
  format_from-name name [] s h =
      ap (λ (x : Bytes). format_from kwargs (in_field x) s) (sym (append-nil name))
  format_from-name name (c ∷ w) s h =
      format_from-word name c (w ++ s) h.0
      ∙ format_from-name (name ++ c ∷ []) w s h.1
      ∙ ap (λ (x : Bytes). format_from kwargs (in_field x) s) (append_assoc name (c ∷ []) w)

  format_from-close :
      (name t s : Bytes)
      → is_empty name ≡ false
      → lookup name kwargs ≡ some t
      → format_from kwargs (in_field name) (b'}' ∷ s)
        ≡ append_result t (format_from kwargs in_text s)
  unfolding format_from or_key_error
  format_from-close name t s h e = rw (h, e) refl

  -- `str.format` fills the pattern.
  pub format_from-print_pieces :
      (pieces : List Piece) (tail : Bytes)
      → IsPattern pieces
      → AreGiven pieces
      → (tail ≡ codes "/") ⊎ (tail ≡ [])
      → format_from kwargs in_text (print_pieces pieces ++ tail) ≡ ok (fill value_of pieces ++ tail)
  unfolding append_result
  format_from-print_pieces [] tail h g (inl e) = rw e (unfold format_from in refl)
  format_from-print_pieces [] tail h g (inr e) = rw e (unfold format_from in refl)
  format_from-print_pieces (byte c ∷ pieces) tail h g t =
      let (o, e, _, _) = plain-not_special c h.0 in
      format_from-byte c (print_pieces pieces ++ tail) o e
      ∙ ap (append_result (c ∷ [])) (format_from-print_pieces pieces tail h.1 g t)
  format_from-print_pieces (hole name ∷ pieces) tail h g t =
      format_from-open ((name ++ b'}' ∷ print_pieces pieces) ++ tail)
      ∙ ap (format_from kwargs (in_field [])) (append_assoc name (b'}' ∷ print_pieces pieces) tail)
      ∙ format_from-name [] name (b'}' ∷ (print_pieces pieces ++ tail)) h.0.0.1
      ∙ format_from-close name (value_of name) (print_pieces pieces ++ tail) h.0.0.0 g.0
      ∙ ap (append_result (value_of name)) (format_from-print_pieces pieces tail h.1 g.1 t)
      ∙ ap ok (sym (append_assoc (value_of name) (fill value_of pieces) tail))
