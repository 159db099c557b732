-- ===== src/Router/Tests.antt =====
-- The cases of the repository's tests/test_router.py, and what is refused.
use levin.Prelude.{ℕ, ◌≡◌, refl, List, [], ◌∷◌, ◌++◌, some, none, false}
use levin.Bytes.{Bytes, codes, ends_with, starts_with, contains_byte, Str}
use levin.Result.{Result, ok, err, raised, value_error}
use levin.Dict.{Dict, put, merge, lookup, has_key}
use levin.Common.{
  Value, Request, LazyCall, new_request, create_headers_map, set, get, path, lazy, path_of,
}
use levin.Router.{
  Condition, Routes, equals, add, resolve, call_condition, matches_path, slash_append,
  pattern_to_regexp, url, format_from, in_text, offer_routing, middleware,
}
use levin.Router.Regexp.{Item, lit, opt, group, sub_path_args, compile, fullmatch, Groups}
use levin.Router.Regexp.Groups.{Spells, fullmatch_sound}
use levin.Router.Back.{back_from}
use levin.Router.Regexp.Pieces.{Piece, byte, hole}
use levin.Router.Resolution.{accepts, resolve_lem, kept_or_found, middleware_lem}

opened : Unit {0}
unfolding ends_with starts_with contains_byte put merge lookup has_key new_request
    create_headers_map get path add resolve call_condition matches_path slash_append
    pattern_to_regexp url sub_path_args compile fullmatch
opened = tt

abbrev no_lazy : LazyCall
no_lazy f r = (err (raised 1), r)

abbrev request : Bytes → Bytes → Request
request p method = new_request p method (some []) [] [] 0 (codes "http")

test_pattern_to_regexp :
    sub_path_args (codes "/order/{user}/{order}")
    ≡ codes "/order/(?P<user>[-_a-zA-Z0-9]+)/(?P<order>[-_a-zA-Z0-9]+)"
unfolding opened
test_pattern_to_regexp = refl

abbrev routed : Bytes → Bytes → Routes → Result (ℕ × List (Bytes × Value))
routed p method routes = (resolve no_lazy 0 routes (request p method)).0

abbrev simple : Routes
simple = (equals (codes "POST") (codes "/test1") [], 7) ∷ []

abbrev simple_found : Result (ℕ × List (Bytes × Value))
simple_found = ok (7, (codes "pattern", Value.bytes (codes "/test1")) ∷ [])

test_resolve_simple :
    (routed (codes "/test1") (codes "POST") simple ≡ simple_found)
    × (routed (codes "/test1/") (codes "POST") simple ≡ simple_found)
    × (routed (codes "/test/") (codes "POST") simple ≡ ok (0, []))
    × (routed (codes "/test1/some") (codes "POST") simple ≡ ok (0, []))
    × (routed (codes "/test1") (codes "GET") simple ≡ ok (0, []))
unfolding opened
test_resolve_simple = (refl, refl, refl, refl, refl)

resolve_added : Bytes → Bytes → Result (ℕ × List (Bytes × Value))
resolve_added pattern p = elim (add (codes "POST") pattern 7 [] []) [
  | err e ↦ err e
  | ok routes ↦ routed p (codes "POST") routes
]

test_resolve_pattern :
    (resolve_added (codes "/test/{user}") (codes "/test/myuser")
      ≡ ok (
        7,
        (codes "user", Value.bytes (codes "myuser"))
            ∷ (codes "pattern", Value.bytes (codes "/test/{user}"))
            ∷ [],
      ))
    × (resolve_added (codes "/test/{user}/") (codes "/test/myuser")
        ≡ ok (
          7,
          (codes "user", Value.bytes (codes "myuser"))
              ∷ (codes "pattern", Value.bytes (codes "/test/{user}/"))
              ∷ [],
        ))
    × (resolve_added (codes "/test/{user}") (codes "/test") ≡ ok (0, []))
    × (resolve_added (codes "/test/{user}") (codes "/test/myuser/test") ≡ ok (0, []))
    × (resolve_added (codes "/test/{user}") (codes "/v1/test/myuser") ≡ ok (0, []))
unfolding resolve_added opened
test_resolve_pattern = (refl, refl, refl, refl, refl)

-- PATH_ARG takes a dash in a name, and `re` refuses it.
dash_refused : resolve_added (codes "/{user-id}") (codes "/me") ≡ err (raised 0)
unfolding resolve_added opened
dash_refused = refl

url_test :
    url (codes "user") ((codes "id", codes "7") ∷ []) (
      (equals (codes "GET") (codes "/u/{id}/") ((codes "name", Value.str (codes "user")) ∷ []), 1)
      ∷ [])
    ≡ ok (codes "/u/7/")
unfolding opened
url_test = refl

-- Doubled braces stand for themselves.
braces_doubled :
    format_from ((codes "id", codes "7") ∷ []) in_text (codes "{{{id}}}") ≡ ok (codes "{7}")
unfolding format_from lookup
braces_doubled = refl

brace_alone : format_from ((codes "id", codes "7") ∷ []) in_text (codes "{id}}") ≡ err value_error
unfolding format_from lookup
brace_alone = refl

abbrev get_users : Condition
get_users = equals (codes "GET") (codes "/test1") []

abbrev mixed : Routes
mixed = (get_users, 3) ∷ []

abbrev posted : Request
posted = request (codes "/test1/") (codes "POST")

abbrev test1_found : Dict Value
test1_found = (codes "pattern", Value.bytes (codes "/test1")) ∷ []

not_get : accepts get_users (codes "POST") (codes "/test1/") ≡ none
unfolding opened
not_get = refl

accepted :
    accepts (equals (codes "POST") (codes "/test1") []) (codes "POST") (codes "/test1/")
    ≡ some test1_found
unfolding opened
accepted = refl

-- The path of a request with a query is read lazily.
abbrev by_path : LazyCall
by_path f r = (ok (Value.bytes (codes "/test1/")), r)

abbrev asked_lazily : Request
asked_lazily =
    set (codes "path") (lazy path_of) false (request (codes "/test1/?a=1") (codes "POST"))

abbrev read_once : Request
read_once = (path by_path asked_lazily).1

path_read : path by_path asked_lazily ≡ (ok (Value.bytes (codes "/test1/")), read_once)
unfolding opened set
path_read = refl

resolve_lem_example :
    (resolve by_path 0 mixed asked_lazily ≡ (ok (0, []), asked_lazily))
    × (resolve by_path 0 (mixed ++ (equals (codes "POST") (codes "/test1") [], 7) ∷ []) asked_lazily
        ≡ (ok (7, test1_found), read_once))
unfolding new_request set path get has_key lookup put
resolve_lem_example =
    resolve_lem by_path asked_lazily read_once (codes "/test1/") path_read refl 0 mixed []
      (equals (codes "POST") (codes "/test1") []) 7 test1_found (not_get, tt) accepted

offered :
    resolve no_lazy 0 simple (offer_routing posted) ≡ (ok (7, test1_found), offer_routing posted)
unfolding opened offer_routing set
offered = refl

middleware_lem_example :
    (out : Request) × (middleware no_lazy 0 simple posted ≡ (ok 7, out))
    × (lookup (codes "pattern") out.scope
        ≡ kept_or_found
            (lookup (codes "pattern") (offer_routing posted).scope)
            (lookup (codes "pattern") test1_found))
middleware_lem_example =
    middleware_lem no_lazy 0 simple posted (offer_routing posted) 7 test1_found (codes "pattern")
      offered

abbrev user_items : List Item
user_items = lit b'/' ∷ group (codes "user") ∷ opt b'/' ∷ []

abbrev user_groups : Groups
user_groups = (codes "user", codes "me") ∷ []

user_matched : fullmatch user_items (codes "/me") ≡ some user_groups
unfolding fullmatch
user_matched = refl

user_compiled : pattern_to_regexp (slash_append (codes "/{user}")) ≡ some user_items
unfolding opened
user_compiled = refl

me_spelled : Spells user_items (codes "/me") user_groups
me_spelled = fullmatch_sound user_items (codes "/me") user_groups user_matched

-- "/u/{id}/x" is given back.
back_one : back_from 0 (sub_path_args (codes "/u/{id}/x")) ≡ codes "/u/{id}/x"
unfolding back_from sub_path_args starts_with
back_one = refl

-- Of two arguments between two slashes only the first is.
back_two : back_from 0 (sub_path_args (codes "/{a}.{b}/x")) ≡ codes "/{a}/x"
unfolding back_from sub_path_args starts_with
back_two = refl

-- "/{id}/{to}"
abbrev two_pieces : List Piece
two_pieces = byte b'/' ∷ hole (codes "id") ∷ byte b'/' ∷ hole (codes "to") ∷ []

abbrev named_meta : Dict Value
named_meta = (codes "name", Value.str (codes "pair")) ∷ []

abbrev two_kwargs : Dict Str
two_kwargs = (codes "id", codes "7") ∷ (codes "to", codes "7") ∷ []

abbrev two_items : List Item
two_items = lit b'/' ∷ group (codes "id") ∷ lit b'/' ∷ group (codes "to") ∷ []
