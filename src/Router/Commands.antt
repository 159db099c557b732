-- ===== src/Router/Commands.antt =====
-- levin/components/router.py: `list` and `resolve`, the commands, and the rest of the component's methods.
use levin.Prelude.{
  ℕ, ◌≡◌, refl, Bool, true, false, not, Option, none, some, List, [], ◌∷◌, ◌++◌, is_empty,
  if◌then◌else◌,
}
use levin.Bytes.{Bytes, Str, codes, join}
use levin.Bytes.Utf8.{encode}
use levin.Result.{Result, ok, err, attribute_error, ◌>>=◌}
use levin.Dict.{Dict, lookup}
use levin.Common.{Value, Request, LazyCall, new_request}
use levin.Router.{Condition, Routes, method_of, pattern_of, resolve, add}

-- HttpRouter.__init__ and clean()
abbrev pub clean : Routes
clean = []

-- HttpRouter.route(path, method, **meta): the decorator
unfoldable pub route : Bytes → Bytes → ℕ → Dict Value → Routes → Result Routes
unfolding add
route p method handler meta routes = add method p handler meta routes

-- What Python tells of a handler: its name, "file:line", its source and its docstring, and `bytes.decode`.
pub record Inspector : Type 0 where
  pub decode : Bytes → Result Str
  pub name_of : ℕ → Result Str
  pub place_of : ℕ → Result Str
  pub source_of : ℕ → Result Str
  pub doc_of : ℕ → Option Str

module _ (inspect : Inspector) where
  -- "{method} {pattern} -> {name} in {place}"
  route_line : Condition → ℕ → Result Str
  route_line condition handler = do
    method ← inspect.decode (method_of condition)
    pattern ← inspect.decode (pattern_of condition)
    name ← inspect.name_of handler
    place ← inspect.place_of handler
    ok (method ++ (codes " " ++ (pattern ++ (codes " -> " ++ (name ++ (codes " in " ++ place))))))

  source_lines : Bool → ℕ → Result (List Str)
  source_lines false handler = ok []
  source_lines true handler = do source ← inspect.source_of handler; ok (source ∷ [])

  -- `method and condition.method != method`: bytes are never equal to a text.
  is_skipped : Option Str → Bool
  is_skipped none = false
  is_skipped (some method) = not (is_empty method)

  add_lines : Bool → Condition → ℕ → Result (List Str) → Result (List Str)
  unfolding route_line source_lines
  add_lines code condition handler rest = do
    line ← route_line condition handler
    source ← source_lines code handler
    lines ← rest
    ok (line ∷ (source ++ lines))

  list_lines : Option Str → Bool → Routes → Result (List Str)
  unfolding add_lines is_skipped
  list_lines method code [] = ok []
  list_lines method code ((condition, handler) ∷ routes) =
      let rest = list_lines method code routes in
      if is_skipped method then rest else add_lines code condition handler rest

  -- HttpRouter.list(method, code)
  unfoldable pub list : Option Str → Bool → Routes → Result Str
  unfolding list_lines
  list method code routes = do lines ← list_lines method code routes; ok (join (codes "\n") lines)

  -- 'with pattern "..."', where the conditions' result has one; `decode` is a method of bytes only.
  pattern_text : Option Value → Result Str
  pattern_text none = ok []
  pattern_text (some (Value.bytes pattern)) = do
    text ← inspect.decode pattern
    ok (codes "with pattern \"" ++ (text ++ codes "\""))
  pattern_text (some _) = err attribute_error

  handler_text : Bool → ℕ → Str → Result Str
  handler_text true handler base = do
    source ← inspect.source_of handler
    ok (base ++ (codes "\n\n" ++ source))
  handler_text false handler base = elim (inspect.doc_of handler) [
    | none ↦ ok base
    | some doc ↦ ok (if is_empty doc then base else base ++ (codes "\n\n" ++ doc))
  ]

  describe : Bool → Result (ℕ × Dict Value) × Request → Result Str
  unfolding pattern_text handler_text
  describe code (err e, request) = err e
  describe code (ok (handler, found), request) = do
    pattern ← pattern_text (lookup (codes "pattern") found)
    name ← inspect.name_of handler
    place ← inspect.place_of handler
    handler_text code handler (
        codes "Find handler \""
        ++ (name ++ (codes "\" " ++ (pattern ++ (codes " in " ++ (place ++ codes " "))))))

  -- HttpRouter.resolve(path, method, code), the command
  unfoldable pub resolve_command :
      LazyCall → ℕ → Routes → (path method : Str) → (code : Bool) → Result Str
  unfolding describe
  resolve_command call not_found routes path method code = describe code (
      resolve call not_found routes
        (new_request (encode path) (encode method) (some []) [] [] 0 (codes "http")))

  -- With a method given, `list` lists no route, whatever the table is.
  pub list_method :
      (c : ℕ) (method : Str) (code : Bool) (routes : Routes)
      → list (some (c ∷ method)) code routes ≡ ok []
  unfolding list join
  list_method c method code routes = go routes
    where
      go : (routes : Routes) → list (some (c ∷ method)) code routes ≡ ok []
      go [] = refl
      go (entry ∷ routes) = go routes
