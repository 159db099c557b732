-- ===== src/Common/Tests.antt =====
-- Runs of the request's scope and of the headers' map.
use levin.Prelude.{◌≡◌, ◌≢◌, refl, none, some, List, [], ◌∷◌}
use levin.Bytes.{Bytes, codes, lower, join}
use mathlib.Core.Bool.{false≢true}
use levin.Bytes.Equality.{eqb_iff}
use levin.Result.{ok, err, raised}
use levin.Dict.{lookup, put}
use levin.Common.{Value, value, lazy, foreign_lazy, Request, LazyCall, create_headers_map, get}
use levin.Common.HeaderLaws.{values_of, joined, lookup-create_headers_map}
use levin.Common.ScopeLaws.{get_once}

abbrev raw : List (Bytes × Bytes)
raw = (codes "Accept", codes "a") ∷ (codes "Host", codes "h") ∷ (codes "ACCEPT", codes "b") ∷ []

two_values : lookup (codes "accept") (create_headers_map raw) ≡ some (codes "a; b")
unfolding lookup create_headers_map put lower join
two_values = refl

lookup-create_headers_map_example :
    lookup (codes "accept") (create_headers_map raw) ≡ joined (values_of (codes "accept") raw)
lookup-create_headers_map_example = lookup-create_headers_map (codes "accept") raw

abbrev seven : LazyCall
seven f r = (ok (Value.int 7), r)

abbrev failing : LazyCall
failing f r = (err (raised 1), r)

abbrev key : Bytes
key = codes "k"

abbrev fresh : Request
fresh = record {
  raw_path = codes "/";
  method = codes "GET";
  body = none;
  headers = [];
  stream = 0;
  protocol = [];
  scheme = codes "http";
  scope = (key, lazy (foreign_lazy 0)) ∷ [];
}

abbrev read : Request
read = record fresh { scope = (key, value (Value.int 7)) ∷ [] }

key_there : lookup key fresh.scope ≢ none
unfolding lookup
key_there e = cc

first_read : get seven key Value.none_value fresh ≡ (ok (Value.int 7), read)
unfolding get lookup put
first_read = refl

get_once_example : get failing key (Value.int 1) read ≡ (ok (Value.int 7), read)
get_once_example =
    get_once seven failing key Value.none_value (Value.int 1) fresh key_there first_read

apart : ◌≢◌ {A = Bytes} key (codes "j")
apart e = false≢true ((eqb_iff key (codes "j")).1 e)
