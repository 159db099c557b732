-- ===== src/Router/Regexp/Pieces.antt =====
-- levin/components/router.py: patterns written piece by piece, with the texts that fill them.
use levin.Prelude.{ℕ, ◌≡◌, true, false, List, [], ◌∷◌, ◌++◌, arith, ◌==◌, leb}
use levin.Bytes.{Bytes, contains_byte}
use levin.Router.Regexp.{Groups, is_word, Item, lit, group, is_special, is_identifier}
use levin.Router.Regexp.Groups.{IsWordText}

-- A byte that stands for itself, or an argument.
pub data Piece : Type 0 where
  byte : ℕ → Piece
  hole : Bytes → Piece

-- The pattern as the user of the router writes it.
abbrev pub print_pieces : List Piece → Bytes
print_pieces [] = []
print_pieces (byte c ∷ pieces) = c ∷ print_pieces pieces
print_pieces (hole name ∷ pieces) = b'{' ∷ (name ++ b'}' ∷ print_pieces pieces)

abbrev pub items_of : List Piece → List Item
items_of [] = []
items_of (byte c ∷ pieces) = lit c ∷ items_of pieces
items_of (hole name ∷ pieces) = group name ∷ items_of pieces

-- An ASCII byte that means nothing else to `re`.
abbrev pub IsPlain : ℕ → Type 0
IsPlain c =
    (is_special c ≡ false) × ((c == b'(') ≡ false) × ((c == b'.') ≡ false) × (leb c 127 ≡ true)

-- The bytes are plain, and the arguments' names are identifiers without a dash.
abbrev pub IsPattern : List Piece → Type 0
IsPattern [] = Unit
IsPattern (byte c ∷ pieces) = IsPlain c × IsPattern pieces
IsPattern (hole name ∷ pieces) = (IsWordText name × (is_identifier name ≡ true)) × IsPattern pieces

pub plain-not_special :
    (c : ℕ)
    → IsPlain c
    → ((c == b'{') ≡ false) × ((c == b'}') ≡ false) × ((c == b'?') ≡ false) × ((c == 92) ≡ false)
unfolding contains_byte
plain-not_special c h =
    (ground (arith, h.0), ground (arith, h.0), ground (arith, h.0), ground (arith, h.0))

pub plain-no_paren : (c : ℕ) → IsPlain c → ((c == b'(') ≡ false) × ((c == b')') ≡ false)
unfolding contains_byte
plain-no_paren c h = (h.1, ground (arith, h.0))

-- The texts of the arguments, by their names
module _ (value_of : Bytes → Bytes) where
  abbrev pub fill : List Piece → Bytes
  fill [] = []
  fill (byte c ∷ pieces) = c ∷ fill pieces
  fill (hole name ∷ pieces) = value_of name ++ fill pieces

  abbrev pub groups_of : List Piece → Groups
  groups_of [] = []
  groups_of (byte c ∷ pieces) = groups_of pieces
  groups_of (hole name ∷ pieces) = (name, value_of name) ∷ groups_of pieces

  -- No text of an argument runs on into these pieces.
  abbrev pub IsApart : List Piece → Type 0
  IsApart [] = Unit
  IsApart (byte c ∷ pieces) = is_word c ≡ false
  IsApart (hole name ∷ pieces) = ⊥

  -- Each argument has a text of its class, and ends where its text ends.
  abbrev pub AreFilled : List Piece → Type 0
  AreFilled [] = Unit
  AreFilled (byte c ∷ pieces) = AreFilled pieces
  AreFilled (hole name ∷ pieces) = (IsWordText (value_of name) × IsApart pieces) × AreFilled pieces
