-- ===== src/Common.antt =====
-- levin/core/common.py: the headers' map, `Request` with its scope of lazy attributes, `Push` and
-- `Response`. The objects that a scope holds are the constructors of `Value`.
pub mod Proxy
pub mod HeaderLaws
pub mod ScopeLaws
pub mod Tests
use levin.Prelude.{
  ℕ, Bool, true, false, not, ◌||◌, Option, none, some, List, [], ◌∷◌, ◌++◌, if◌then◌else◌,
}
use levin.Bytes.{Bytes, Str, codes, lower, join, eqb}
use levin.Result.{Result, ok, err, attribute_error}
use levin.Dict.{Dict, lookup, put, has_key}

-- `_headers.setdefault(name.lower(), []).append(value)`
unfoldable pub append_value : Bytes → Bytes → Dict (List Bytes) → Dict (List Bytes)
append_value name value headers = elim (lookup name headers) [
  | none ↦ put name (value ∷ []) headers
  | some values ↦ put name (values ++ value ∷ []) headers
]

-- The first loop of `_create_headers_map`.
unfoldable pub group_headers : Dict (List Bytes) → List (Bytes × Bytes) → Dict (List Bytes)
unfolding append_value
group_headers headers [] = headers
group_headers headers ((name, value) ∷ rest) =
    group_headers (append_value (lower name) value headers) rest

-- The dict comprehension: `{name.lower(): b"; ".join(value) for ...}`.
unfoldable pub join_headers : Dict Bytes → Dict (List Bytes) → Dict Bytes
join_headers done [] = done
join_headers done ((name, values) ∷ rest) =
    join_headers (put (lower name) (join (codes "; ") values) done) rest

unfoldable pub create_headers_map : List (Bytes × Bytes) → Dict Bytes
unfolding group_headers join_headers
create_headers_map headers = join_headers [] (group_headers [] headers)

pub record Push : Type 0 where
  pub path : Bytes
  pub method : Bytes

-- The functions that a scope holds as values.
pub data Function : Type 0 where
  get_url get_route add_push transport_info profile_condition : Function
  foreign_function : ℕ → Function

-- The functions behind lazy attributes.
pub data Lazy : Type 0 where
  get_transport_info create_add_push data_of path_of query_params_of json_of content_type_of
        encoding_of :
      Lazy
  foreign_lazy : ℕ → Lazy

-- What a scope's attribute may be; `foreign n` is any other Python object.
pub data Value : Type 0 where
  none_value : Value
  bool : Bool → Value
  int : ℕ → Value
  str : Str → Value
  bytes : Bytes → Value
  push_list : List Push → Value
  query : List (Bytes × List Bytes) → Value
  function : Function → Value
  foreign : ℕ → Value

-- An entry of `_scope`: a value, or a `_LazyAttr` with its function.
pub data Attr : Type 0 where
  value : Value → Attr
  lazy : Lazy → Attr

-- `body` is `None` where the parser met no blank line.
pub record Request : Type 0 where
  pub raw_path : Bytes
  pub method : Bytes
  pub body : Option Bytes
  pub headers : Dict Bytes
  pub stream : ℕ
  pub protocol : Bytes
  pub scheme : Bytes
  pub scope : Dict Attr

-- Request.__init__
unfoldable pub new_request :
    (path method : Bytes) (body : Option Bytes) (headers : List (Bytes × Bytes)) (protocol : Bytes)
    (stream : ℕ) (scheme : Bytes)
    → Request
new_request path method body headers protocol stream scheme = record {
  raw_path = path;
  method = method;
  body = body;
  headers = create_headers_map headers;
  stream = stream;
  protocol = protocol;
  scheme = scheme;
  scope = [];
}

-- Request.set(key, value, lazy, rewrite); `lazy` is told by the attribute.
unfoldable pub set : Bytes → Attr → Bool → Request → Request
set key attr rewrite request =
    if not (has_key key request.scope) || rewrite
    then record request { scope = put key attr request.scope }
    else request

-- What runs the function of a lazy attribute: it may raise, and it may write to the request.
abbrev pub LazyCall : Type 0
LazyCall = Lazy → Request → Result Value × Request

store_attr : Bytes → Result Value × Request → Result Value × Request
store_attr item (ok v, request) =
    (ok v, record request { scope = put item (value v) request.scope })
store_attr item (err e, request) = (err e, request)

-- Request.__slots__
is_slot : Bytes → Bool
is_slot item =
    eqb item (codes "raw_path")
    || eqb item (codes "method")
    || eqb item (codes "body")
    || eqb item (codes "headers")
    || eqb item (codes "stream")
    || eqb item (codes "protocol")
    || eqb item (codes "_scope")
    || eqb item (codes "scheme")

module _ (call : LazyCall) where
  read_attr : Bytes → Value → Request → Option Attr → Result Value × Request
  unfolding store_attr
  read_attr item default request none = (ok default, request)
  read_attr item default request (some (value v)) = (ok v, request)
  read_attr item default request (some (lazy f)) = store_attr item (call f request)

  -- Request.get(item, default)
  unfoldable pub get : Bytes → Value → Request → Result Value × Request
  unfolding read_attr
  get item default request = read_attr item default request (lookup item request.scope)

  absent_as_error : Request → Option Attr → Result Value × Request → Result Value × Request
  absent_as_error request none found = (err attribute_error, request)
  absent_as_error request (some a) found = found

  -- Request.__getattr__(item), which Python calls for a name that is not found as a field; a slot
  -- that is empty, after unpickling, reads as `None`
  unfoldable pub get_attr : Bytes → Request → Result Value × Request
  unfolding get absent_as_error is_slot
  get_attr item request =
      if is_slot item
      then (ok none_value, request)
      else absent_as_error request (lookup item request.scope) (get item none_value request)

  -- Request.path
  unfoldable pub path : Request → Result Value × Request
  unfolding get
  path request = get (codes "path") (bytes request.raw_path) request

pub record Response : Type 0 where
  pub status : ℕ
  pub body : Bytes
  pub headers : Dict Bytes
  pub pushes : List Push
  pub push : Bool

-- Response.__init__ with the defaults of `pushes` and `push`
unfoldable pub new_response : ℕ → Bytes → Dict Bytes → Response
new_response status body headers = record {
  status = status;
  body = body;
  headers = headers;
  pushes = [];
  push = false;
}
