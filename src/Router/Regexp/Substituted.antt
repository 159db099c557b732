-- ===== src/Router/Regexp/Substituted.antt =====
-- levin/components/router.py: what PATH_ARG.sub makes of a pattern written piece by piece.
use levin.Prelude.{
  ℕ, ◌≡◌, refl, sym, ap, ◌∙◌, true, false, none, some, List, [], ◌∷◌, ◌++◌, append_assoc,
  append-nil, All, is_empty, ◌==◌,
}
use levin.Bytes.{Bytes}
use levin.Router.Regexp.{is_word, group_source, sub_from}
use levin.Router.Regexp.Pieces.{Piece, byte, hole, print_pieces, IsPattern, plain-not_special}

unfoldable pub source_of : List Piece → Bytes
source_of [] = []
source_of (byte c ∷ pieces) = c ∷ source_of pieces
source_of (hole name ∷ pieces) = group_source name ++ source_of pieces

sub_from-word :
    (taken : Bytes) (c : ℕ) (s : Bytes)
    → is_word c ≡ true
    → sub_from (some taken) (c ∷ s) ≡ sub_from (some (taken ++ c ∷ [])) s
unfolding sub_from
sub_from-word taken c s h = rw h refl

sub_from-name :
    (taken w s : Bytes)
    → All (λ c. is_word c ≡ true) w
    → sub_from (some taken) (w ++ s) ≡ sub_from (some (taken ++ w)) s
sub_from-name taken [] s h = ap (λ (x : Bytes). sub_from (some x) s) (sym (append-nil taken))
sub_from-name taken (c ∷ w) s h =
    sub_from-word taken c (w ++ s) h.0
    ∙ sub_from-name (taken ++ c ∷ []) w s h.1
    ∙ ap (λ (x : Bytes). sub_from (some x) s) (append_assoc taken (c ∷ []) w)

sub_from-close :
    (name s : Bytes)
    → is_empty name ≡ false
    → sub_from (some name) (b'}' ∷ s) ≡ group_source name ++ sub_from none s
unfolding sub_from
sub_from-close name s h = rw h refl

sub_from-open : (s : Bytes) → sub_from none (b'{' ∷ s) ≡ sub_from (some []) s
unfolding sub_from
sub_from-open s = refl

sub_from-byte :
    (c : ℕ) (s : Bytes) → (c == b'{') ≡ false → sub_from none (c ∷ s) ≡ c ∷ sub_from none s
unfolding sub_from
sub_from-byte c s h = rw h refl

-- Each argument becomes a group, and all else stays.
pub sub_from-print_pieces :
    (pieces : List Piece) (rest : Bytes)
    → IsPattern pieces
    → sub_from none (print_pieces pieces ++ rest) ≡ source_of pieces ++ sub_from none rest
unfolding source_of
sub_from-print_pieces [] rest h = refl
sub_from-print_pieces (byte c ∷ pieces) rest h =
    sub_from-byte c (print_pieces pieces ++ rest) (plain-not_special c h.0).0
    ∙ ap (λ (x : Bytes). c ∷ x) (sub_from-print_pieces pieces rest h.1)
sub_from-print_pieces (hole name ∷ pieces) rest h =
    sub_from-open ((name ++ b'}' ∷ print_pieces pieces) ++ rest)
    ∙ ap (sub_from (some [])) (append_assoc name (b'}' ∷ print_pieces pieces) rest)
    ∙ sub_from-name [] name (b'}' ∷ (print_pieces pieces ++ rest)) h.0.0.1
    ∙ sub_from-close name (print_pieces pieces ++ rest) h.0.0.0
    ∙ ap (λ (x : Bytes). group_source name ++ x) (sub_from-print_pieces pieces rest h.1)
    ∙ sym (append_assoc (group_source name) (source_of pieces) (sub_from none rest))
