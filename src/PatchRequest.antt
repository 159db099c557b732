-- ===== src/PatchRequest.antt =====
-- levin/components/common.py: `PatchRequest`, the lazy attributes that it gives a request. The component's
-- settings `json_loads`, `parse_url` and `parse_query_params`, and the codecs of `bytes.decode`, are
-- parameters.
pub mod Charset
pub mod Tests
use levin.Prelude.{
  ℕ, Bool, true, false, not, ◌&&◌, ◌||◌, Option, none, some, List, [], ◌∷◌, if◌then◌else◌, is_empty,
}
use levin.Bytes.{Bytes, Str, codes, eqb, lower, strip, split, split_once, contains_byte}
use levin.Result.{◌>>=◌, Error, Result, ok, err, type_error, attribute_error}
use levin.Dict.{Dict, lookup}
use levin.Common.{
  Value, Attr, lazy, value, Lazy, data_of, path_of, query_params_of, json_of, content_type_of,
  encoding_of, Request, LazyCall, set, get, get_attr,
}

abbrev pub default_encoding : Str
default_encoding = codes "iso-8859-1"

abbrev pub content_type_header : Bytes
content_type_header = codes "content-type"

-- s.split(sep, 1)[0]
unfoldable pub before_first : ℕ → Bytes → Bytes
before_first sep s = elim (split_once sep s) [ none ↦ s | some (a, b) ↦ a ]

content_type_value : Option Bytes → Value
unfolding before_first
content_type_value none = Value.none_value
content_type_value (some []) = Value.none_value
content_type_value (some (c ∷ s)) = Value.bytes (before_first b';' (c ∷ s))

-- PatchRequest._content_type(request)
unfoldable pub content_type : Request → Value
unfolding content_type_value
content_type request = content_type_value (lookup content_type_header request.headers)

-- The loop of `_encoding` over the parameters of the content type.
unfoldable pub find_charset : List Bytes → Str
unfolding before_first
find_charset [] = default_encoding
find_charset (meta ∷ metas) =
    if not (contains_byte b'=' meta)
      || not (eqb (strip (before_first b'=' (strip meta))) (codes "charset"))
    then find_charset metas
    else lower (strip (before_first b'=' (strip meta)))

abbrev tail_of : List Bytes → List Bytes
tail_of [] = []
tail_of (x ∷ xs) = xs

encoding_value : Option Bytes → Str
unfolding find_charset
encoding_value none = default_encoding
encoding_value (some content) =
    if is_empty content || not (contains_byte b';' content)
    then default_encoding
    else find_charset (tail_of (split b';' content))

-- PatchRequest._encoding(request)
unfoldable pub encoding : Request → Str
unfolding encoding_value
encoding request = encoding_value (lookup content_type_header request.headers)

-- The settings of the component, and `bytes.decode(encoding)`.
pub record Settings : Type 0 where
  pub json_loads : Str → Result Value
  pub json_content_type : Bytes
  pub parse_url : Bytes → Result (Bytes × Bytes)
  pub parse_query_params : Bytes → Result (List (Bytes × List Bytes))
  pub decode : Bytes → Str → Result Str

module _ (settings : Settings) where
  set_query :
      Bytes
      → Result (List (Bytes × List Bytes))
      → Request
      → Result (Bytes × List (Bytes × List Bytes)) × Request
  set_query p (err e) request = (err e, request)
  set_query p (ok params) request =
      (ok (p, params), set (codes "query_params") (value (Value.query params)) false request)

  -- PatchRequest._parse_url(request): the path and the parameters, and the request with what was set. Where
  -- the query is refused, the path is set already.
  unfoldable pub parse_url : Request → Result (Bytes × List (Bytes × List Bytes)) × Request
  unfolding set_query
  parse_url request = elim (settings.parse_url request.raw_path) [
    | err e ↦ (err e, request)
    | ok (p, q) ↦
        set_query p (settings.parse_query_params q)
          (set (codes "path") (value (Value.bytes p)) false request)
  ]

  -- PatchRequest._path(request)
  unfoldable pub path : Request → Result Value × Request
  unfolding parse_url
  path request =
      if not (contains_byte b'?' request.raw_path)
      then (ok (Value.bytes request.raw_path), request)
      else (let (parsed, request') = parse_url request in
          (parsed >>= (λ url. ok (Value.bytes url.0)), request'))

  -- PatchRequest._query_params(request)
  unfoldable pub query_params : Request → Result Value × Request
  unfolding parse_url
  query_params request =
      if not (contains_byte b'?' request.raw_path)
      then (ok (Value.query []), request)
      else (let (parsed, request') = parse_url request in
          (parsed >>= (λ url. ok (Value.query url.1)), request'))

  -- What a lazy attribute runs that `_json` reads: these two read only the headers.
  header_call : LazyCall
  unfolding content_type encoding
  header_call content_type_of request = (ok (content_type request), request)
  header_call encoding_of request = (ok (Value.str (encoding request)), request)
  header_call other request = (err attribute_error, request)

  decode_body : Option Bytes → Result Value × Request → Result Value × Request
  decode_body body (err e, request) = (err e, request)
  decode_body none (ok encoding_read, request) = (err attribute_error, request)
  decode_body (some body) (ok (Value.str name), request) = (
    elim (settings.decode body name) [ err e ↦ err e | ok text ↦ settings.json_loads text ],
    request,
  )
  decode_body (some body) (ok other, request) = (err type_error, request)

  abbrev is_json : Value → Bool
  is_json (Value.bytes s) = eqb s settings.json_content_type
  is_json other = false

  json_of_type : Result Value × Request → Result Value × Request
  unfolding decode_body header_call get_attr
  json_of_type (err e, request) = (err e, request)
  json_of_type (ok found, request) =
      if is_json found
      then decode_body request.body (get_attr header_call (codes "encoding") request)
      else (ok Value.none_value, request)

  -- PatchRequest._json(request), where `content_type` and `encoding` are this component's attributes.
  unfoldable pub json : Request → Result Value × Request
  unfolding json_of_type header_call get_attr
  json request = json_of_type (get_attr header_call (codes "content_type") request)

  -- The lazy functions of this component; `other` runs the others'.
  unfoldable pub patch_call : LazyCall → LazyCall
  unfolding path query_params json header_call
  patch_call other data_of request = (ok Value.none_value, request)
  patch_call other path_of request = path request
  patch_call other query_params_of request = query_params request
  patch_call other json_of request = json request
  patch_call other content_type_of request = header_call content_type_of request
  patch_call other encoding_of request = header_call encoding_of request
  patch_call other f request = other f request

-- PatchRequest.middleware up to `call_next`
unfoldable pub middleware : Request → Request
middleware request =
    let offer = λ (key : Bytes) (f : Lazy) (r : Request). set key (lazy f) false r in
    offer (codes "encoding") encoding_of (
      offer (codes "content_type") content_type_of (
        offer (codes "json") json_of (
          offer (codes "query_params") query_params_of
            (offer (codes "path") path_of (offer (codes "data") data_of request)))))
