-- ===== src/Router/Url.antt =====
-- levin/components/router.py: `url` and `_resolve`, of one route.
pub mod Format
pub mod Tests
use levin.Prelude.{
  ℕ, leb, ◌≡◌, refl, sym, ◌∙◌, Bool, true, false, Option, some, List, [], ◌∷◌, ◌++◌, arith, All,
  All-append, is_empty, ◌==◌, inl, inr, ◌⊎◌, map, Bool-cases, if◌then◌else◌,
}
use levin.Bytes.{Bytes, Str, codes, eqb, ends_with}
use levin.Bytes.Equality.{eqb_refl}
use levin.Bytes.Utf8.{IsAscii, decode-IsAscii}
use levin.Result.{Result, ok, err}
use levin.Dict.{Dict, lookup, put, merge}
use levin.Common.{Value}
use levin.Router.{
  in_text, in_field, Condition, regexp, Routes, group_value, drop_backslashes, append_result,
  or_key_error, format_from, has_name, url, meta_of, pattern_of,
}
use levin.Router.Regexp.{Item, is_word, fullmatch}
use levin.Router.Regexp.Groups.{IsWordText}
use levin.Router.Regexp.Pieces.{
  Piece, byte, hole, print_pieces, IsPlain, IsPattern, plain-not_special, fill, groups_of,
}
use levin.Router.Url.Format.{
  IsClean, drop_backslashes-IsClean, print_pieces-IsClean, print_pieces-IsAscii, AreGiven,
  format_from-print_pieces,
}

url_skips :
    (name : Str) (kwargs : Dict Str) (before routes : Routes)
    → All (λ route. has_name name route.0 ≡ false) before
    → url name kwargs (before ++ routes) ≡ url name kwargs routes
unfolding url
url_skips name kwargs [] routes h = refl
url_skips name kwargs ((c, handler) ∷ before) routes h =
    rw h.0 (url_skips name kwargs before routes h.1)

has_name_given :
    (name : Str) (method pattern : Bytes) (meta : Dict Value) (items : List Item)
    → lookup (codes "name") meta ≡ some (Value.str name)
    → has_name name (regexp method pattern meta items) ≡ true
unfolding has_name
has_name_given name method pattern meta items e = rw (has_name, e) (eqb_refl name)

url_found :
    (name : Str) (kwargs : Dict Str) (c : Condition) (handler : ℕ) (routes : Routes)
    → has_name name c ≡ true
    → IsAscii (pattern_of c)
    → IsClean (pattern_of c)
    → url name kwargs ((c, handler) ∷ routes) ≡ format_from kwargs in_text (pattern_of c)
unfolding url
url_found name kwargs c handler routes h ascii clean =
    rw (h, decode-IsAscii (pattern_of c) ascii, drop_backslashes-IsClean (pattern_of c) clean) refl

-- The URL of a route by its name, among the routes before it.
pub url-fill :
    (name : Str) (kwargs : Dict Str) (value_of : Bytes → Bytes) (pieces : List Piece) (tail : Bytes)
    (before : Routes) (method : Bytes) (meta : Dict Value) (items : List Item) (handler : ℕ)
    → IsPattern pieces
    → (tail ≡ codes "/") ⊎ (tail ≡ [])
    → AreGiven kwargs value_of pieces
    → lookup (codes "name") meta ≡ some (Value.str name)
    → All (λ route. has_name name route.0 ≡ false) before
    → url name kwargs
        (before ++ (regexp method (print_pieces pieces ++ tail) meta items, handler) ∷ [])
      ≡ ok (fill value_of pieces ++ tail)
url-fill name kwargs value_of pieces tail before method meta items handler h t given named apart =
    let pattern = print_pieces pieces ++ tail in
    let c = regexp method pattern meta items in
    url_skips name kwargs before ((c, handler) ∷ []) apart
    ∙ url_found name kwargs c handler [] (has_name_given name method pattern meta items named)
        (All-append (λ x. leb x 127 ≡ true) (print_pieces pieces) tail
          (print_pieces-IsAscii pieces h) (tail-IsAscii t))
        (All-append (λ x. (x == 92) ≡ false) (print_pieces pieces) tail
          (print_pieces-IsClean pieces h) (tail-IsClean t))
    ∙ format_from-print_pieces kwargs value_of pieces tail h given t
  where
    tail-IsAscii : (tail ≡ codes "/") ⊎ (tail ≡ []) → IsAscii tail
    tail-IsAscii (inl e) = rw e (refl, tt)
    tail-IsAscii (inr e) = rw e tt

    tail-IsClean : (tail ≡ codes "/") ⊎ (tail ≡ []) → IsClean tail
    tail-IsClean (inl e) = rw e (refl, tt)
    tail-IsClean (inr e) = rw e tt

-- What the route of a pattern finds in the path that fills it.
abbrev pub found_in : (value_of : Bytes → Bytes) → List Piece → Bytes → Dict Value → Dict Value
found_in value_of pieces tail meta =
    merge
      (put (codes "pattern") (Value.bytes (print_pieces pieces ++ tail))
        (map group_value (groups_of value_of pieces)))
      meta
