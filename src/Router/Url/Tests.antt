-- ===== src/Router/Url/Tests.antt =====
-- The route "/u/{id}", its URL and the request of it.
use levin.Prelude.{some, List, [], ◌∷◌}
use levin.Bytes.{Bytes, Str, codes}
use levin.Result.{err, raised}
use levin.Dict.{Dict}
use levin.Common.{Value, Request, LazyCall, new_request}
use levin.Router.Regexp.Pieces.{Piece, byte, hole}

abbrev pieces : List Piece
pieces = byte b'/' ∷ byte b'u' ∷ byte b'/' ∷ hole (codes "id") ∷ []

abbrev meta : Dict Value
meta = (codes "name", Value.str (codes "user")) ∷ []

abbrev kwargs : Dict Str
kwargs = (codes "id", codes "7") ∷ []

abbrev seven : Bytes → Bytes
seven name = codes "7"

abbrev no_lazy : LazyCall
no_lazy f r = (err (raised 1), r)

abbrev asked : Request
asked = new_request (codes "/u/7") (codes "GET") (some []) [] [] 0 (codes "http")
