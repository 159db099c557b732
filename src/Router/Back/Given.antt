-- ===== src/Router/Back/Given.antt =====
-- levin/components/router.py: BACK_PATH_ARG.sub behind PATH_ARG.sub.
use levin.Prelude.{◌≡◌, Bool, true, false, ◌||◌, List, [], ◌∷◌, ◌++◌, ◌==◌}
use levin.Bytes.{Bytes, codes}
use levin.Dict.{Dict}
use levin.Router.Regexp.Pieces.{Piece, byte, hole}

-- No argument stands in front of the next slash.
abbrev pub is_clear : List Piece → Bool
is_clear [] = true
is_clear (byte c ∷ pieces) = (c == b'/') || is_clear pieces
is_clear (hole name ∷ pieces) = false

-- No two arguments stand between two slashes.
abbrev pub IsSpread : List Piece → Type 0
IsSpread [] = Unit
IsSpread (byte c ∷ pieces) = IsSpread pieces
IsSpread (hole name ∷ pieces) = (is_clear pieces ≡ true) × IsSpread pieces

-- What stands behind a group's name, but for the parenthesis
abbrev class_text : Bytes
class_text = codes ">[-_a-zA-Z0-9]+"

-- What stands between the opening parenthesis of an argument's group and what is behind the group
abbrev group_tail : Bytes → Bytes
group_tail name = codes "?P<" ++ (name ++ codes ">[-_a-zA-Z0-9]+)")
