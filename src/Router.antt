-- ===== src/Router.antt =====
-- levin/components/router.py: conditions, the table of routes, resolution, url, and the middleware.
-- A handler is a number; what a request's lazy attributes do is a parameter.
pub mod Regexp
pub mod Resolution
pub mod Slash
pub mod Url
pub mod Back
pub mod Commands
pub mod Tests
use levin.Prelude.{
  ℕ, Bool, true, false, not, ◌&&◌, Option, none, some, List, [], ◌∷◌, ◌++◌, if◌then◌else◌, is_empty,
  ◌==◌, map,
}
use levin.Bytes.{Bytes, Str, codes, eqb, ends_with, contains_byte}
use levin.Bytes.Utf8.{decode}
use levin.Result.{Result, ok, err, ◌>>=◌, Error, value_error, type_error, key_error, raised}
use levin.Dict.{Dict, lookup, put, merge}
use levin.Common.{
  Value, Attr, value, Function, Request, LazyCall, Response, new_response, set, path,
}
use levin.Router.Regexp.{Item, is_word, sub_path_args, compile, fullmatch}

-- _slash_append(value)
unfoldable pub slash_append : Bytes → Bytes
slash_append s = (if ends_with (codes "/") s then s else s ++ codes "/") ++ codes "?"

-- `RegexpCondition` and `EqualsCondition`
pub data Condition : Type 0 where
  regexp : (method pattern : Bytes) (meta : Dict Value) (items : List Item) → Condition
  equals : (method pattern : Bytes) (meta : Dict Value) → Condition

abbrev pub method_of : Condition → Bytes
method_of (regexp method pattern meta items) = method
method_of (equals method pattern meta) = method

abbrev pub pattern_of : Condition → Bytes
pattern_of (regexp method pattern meta items) = pattern
pattern_of (equals method pattern meta) = pattern

abbrev pub meta_of : Condition → Dict Value
meta_of (regexp method pattern meta items) = meta
meta_of (equals method pattern meta) = meta

-- RegexpCondition.pattern_to_regexp(pattern)
unfoldable pub pattern_to_regexp : Bytes → Option (List Item)
pattern_to_regexp pattern = compile (sub_path_args pattern)

abbrev group_value : Bytes × Bytes → Bytes × Value
group_value (name, text) = (name, Value.bytes text)

-- {**match.groupdict(), "pattern": self.pattern, **self.meta}
found_groups : Bytes → Dict Value → Option (List (Bytes × Bytes)) → Option (Dict Value)
found_groups pattern meta none = none
found_groups pattern meta (some groups) =
    some (merge (put (codes "pattern") (Value.bytes pattern) (map group_value groups)) meta)

-- What the path decides, once the methods agree.
unfoldable pub matches_path : Condition → Bytes → Option (Dict Value)
unfolding found_groups
matches_path (regexp method pattern meta items) p = found_groups pattern meta (fullmatch items p)
matches_path (equals method pattern meta) p =
    if eqb (slash_append pattern) (slash_append p)
    then some (merge ((codes "pattern", Value.bytes pattern) ∷ []) meta)
    else none

-- `fullmatch` and `endswith` raise on a path that is not bytes.
match_value : Condition → Result Value × Request → Result (Option (Dict Value)) × Request
match_value condition (err e, request) = (err e, request)
match_value condition (ok (Value.bytes p), request) = (ok (matches_path condition p), request)
match_value condition (ok _, request) = (err type_error, request)

-- The table of routes, each a condition and a handler.
abbrev pub Routes : Type 0
Routes = List (Condition × ℕ)

-- `not_found_handler`, the default of the component's setting
unfoldable pub not_found_response : Response
unfolding new_response
not_found_response = new_response 404 (codes "Not found") []

-- One round of the loop of `_resolve`, with the rest of the loop.
after_condition :
    ℕ
    → (Request → Result (ℕ × Dict Value) × Request)
    → Result (Option (Dict Value)) × Request
    → Result (ℕ × Dict Value) × Request
after_condition handler rest (err e, request) = (err e, request)
after_condition handler rest (ok none, request) = rest request
after_condition handler rest (ok (some found), request) = (ok (handler, found), request)

-- The loop of the middleware: no key that the scope has is overwritten.
unfoldable pub set_all : Dict Value → Request → Request
set_all [] request = request
set_all ((key, v) ∷ found) request = set_all found (set key (value v) false request)

unfoldable pub offer_routing : Request → Request
offer_routing request =
    set (codes "get_route") (value (Value.function Function.get_route)) false
      (set (codes "get_url") (value (Value.function Function.get_url)) false request)

apply_route : Result (ℕ × Dict Value) × Request → Result ℕ × Request
unfolding set_all
apply_route (err e, request) = (err e, request)
apply_route (ok (handler, found), request) = (ok handler, set_all found request)

module _ (call : LazyCall) where
  -- RegexpCondition.__call__ and EqualsCondition.__call__: `none` is False.
  unfoldable pub call_condition : Condition → Request → Result (Option (Dict Value)) × Request
  unfolding match_value
  call_condition condition request =
      if eqb (method_of condition) request.method
      then match_value condition (path call request)
      else (ok none, request)

  -- HttpRouter._resolve(request); `not_found` is the handler of the setting.
  unfoldable pub resolve : ℕ → Routes → Request → Result (ℕ × Dict Value) × Request
  unfolding after_condition
  resolve not_found [] request = (ok (not_found, []), request)
  resolve not_found ((condition, handler) ∷ routes) request =
      after_condition handler (resolve not_found routes) (call_condition condition request)

  -- HttpRouter.middleware up to `call_next`: the handler and the request that `call_next` is given, or
  -- the exception. The handler of the chain is dropped.
  unfoldable pub middleware : ℕ → Routes → Request → Result ℕ × Request
  unfolding offer_routing apply_route
  middleware not_found routes request =
      apply_route (resolve not_found routes (offer_routing request))

-- HttpRouter.add(method, pattern, handler, **meta) of a pattern that is text or bytes. Outside what
-- `compile` reads it stands for an exception.
unfoldable pub add : Bytes → Bytes → ℕ → Dict Value → Routes → Result Routes
unfolding pattern_to_regexp
add method pattern handler meta routes =
    if contains_byte b'{' pattern
    then elim (pattern_to_regexp (slash_append pattern)) [
      | none ↦ err (raised 0)
      | some items ↦ ok (routes ++ (regexp method pattern meta items, handler) ∷ [])
    ]
    else ok (routes ++ (equals method pattern meta, handler) ∷ [])

-- get, post, put and delete: the decorators
unfoldable pub get : Bytes → ℕ → Dict Value → Routes → Result Routes
unfolding add
get = add (codes "GET")

unfoldable pub post : Bytes → ℕ → Dict Value → Routes → Result Routes
unfolding add
post = add (codes "POST")

unfoldable pub put_route : Bytes → ℕ → Dict Value → Routes → Result Routes
unfolding add
put_route = add (codes "PUT")

unfoldable pub delete : Bytes → ℕ → Dict Value → Routes → Result Routes
unfolding add
delete = add (codes "DELETE")

-- .replace("\\", "")
unfoldable pub drop_backslashes : Bytes → Bytes
drop_backslashes [] = []
drop_backslashes (c ∷ s) = if c == 92 then drop_backslashes s else c ∷ drop_backslashes s

append_result : Bytes → Result Bytes → Result Bytes
append_result s (ok t) = ok (s ++ t)
append_result s (err e) = err e

or_key_error : Option Bytes → (Bytes → Result Bytes) → Result Bytes
or_key_error none f = err key_error
or_key_error (some s) f = f s

-- Where `str.format` stands: in the text, in a field, of which it has read the name so far, or behind a
-- closing brace that must be doubled.
pub data Place : Type 0 where
  in_text closing : Place
  in_field : Bytes → Place

-- str.format(**kwargs) of fields that are plain names. Any other field counts as ValueError.
unfoldable pub format_from : Dict Str → Place → Bytes → Result Str
unfolding append_result or_key_error
format_from kwargs in_text [] = ok []
format_from kwargs in_text (c ∷ s) =
    let opened = format_from kwargs (in_field []) s in
    let closed = format_from kwargs closing s in
    let kept = append_result (c ∷ []) (format_from kwargs in_text s) in
    if c == b'{' then opened else (if c == b'}' then closed else kept)
format_from kwargs closing [] = err value_error
format_from kwargs closing (c ∷ s) =
    let kept = append_result (c ∷ []) (format_from kwargs in_text s) in
    if c == b'}' then kept else err value_error
format_from kwargs (in_field name) [] = err value_error
format_from kwargs (in_field name) (c ∷ s) =
    let longer = format_from kwargs (in_field (name ++ c ∷ [])) s in
    let kept = append_result (c ∷ []) (format_from kwargs in_text s) in
    let closed =
      or_key_error (lookup name kwargs) (λ t. append_result t (format_from kwargs in_text s)) in
    if is_word c
    then longer
    else (if is_empty name
        then (if c == b'{' then kept else err value_error)
        else (if c == b'}' then closed else err value_error))

-- `condition.meta.get("name", "") == name`
unfoldable pub has_name : Str → Condition → Bool
has_name name condition = elim (lookup (codes "name") (meta_of condition)) [
  | none ↦ is_empty name
  | some (Value.str s) ↦ eqb s name
  | some _ ↦ false
]

-- HttpRouter.url(name, **kwargs)
unfoldable pub url : Str → Dict Str → Routes → Result Str
unfolding decode drop_backslashes format_from has_name
url name kwargs [] = err value_error
url name kwargs ((condition, handler) ∷ routes) =
    if has_name name condition
    then decode (pattern_of condition)
      >>= (λ text. format_from kwargs in_text (drop_backslashes text))
    else url name kwargs routes
