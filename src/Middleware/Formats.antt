-- ===== src/Middleware/Formats.antt =====
-- levin/components/formating.py: `JsonFormat`, `TextFormat` and `TemplateFormat`.
pub mod Kinds
use levin.Prelude.{
  ℕ, Bool, true, false, Option, none, some, List, [], ◌∷◌, ◌++◌, map, ◌||◌, if◌then◌else◌, is_empty,
  ◌&&◌,
}
use levin.Bytes.{Bytes, Str, codes, eqb, ends_with}
use levin.Bytes.Utf8.{encode}
use levin.Result.{Error, Result, ok, err, type_error, wrong_template, ◌>>=◌}
use levin.Dict.{Dict, merge}
use levin.Component.{truthy}
use levin.Common.{Value, Attr, value, lazy, Request, Response, new_response}
use levin.Middleware.{
  Answer, response, mapping, items, text, raw, template, other, World, Out, Callable, Middleware,
  Env, ◌on_ok◌, get_item,
}
use levin.Middleware.Template.{safe_substitute}

-- `Response` takes any object as its status. One that is not a number stands as 0, which HTTPStatus lacks
-- like the object: it is the print of either that raises.
abbrev pub status_of : Value → ℕ
status_of (Value.int n) = n
status_of (Value.bool true) = 1
status_of v = 0

with_status : Bytes → Result Bytes → Value → Result Answer
with_status content_type body v = do
  bytes ← body
  ok (response (new_response (status_of v) bytes ((codes "content-type", content_type) ∷ [])))

-- Response(status=request.get("status", 200), body=..., headers={b"content-type": self.content_type})
unfoldable pub respond : Env → Bytes → (World → Result Bytes) → World → Out
unfolding with_status get_item
respond env content_type body w =
    get_item env (codes "status") (Value.int 200) w
    on_ok (λ v w'. (with_status content_type (body w') v, w'))

encode_result : Result Str → Result Bytes
encode_result r = do s ← r; ok (encode s)

respond_json : Env → Answer → World → Out
unfolding respond encode_result
respond_json env a w =
    (env.json_dumps a, w)
    on_ok (λ s w'. respond env (codes "application/json") (λ _. ok (encode s)) w')

after_json : Env → Answer → World → Out
unfolding respond_json
after_json env (mapping d) w = respond_json env (mapping d) w
after_json env (items vs) w = respond_json env (items vs) w
after_json env (response r) w = (ok (response r), w)
after_json env (text s) w = (ok (text s), w)
after_json env (raw b) w = (ok (raw b), w)
after_json env (template path context) w = (ok (template path context), w)
after_json env (other n) w = (ok (other n), w)

-- JsonFormat.middleware, whose types to format are dict, list and tuple
unfoldable pub json_format : Env → Middleware
unfolding after_json
json_format env w handler next = next w handler on_ok after_json env

after_text : Env → Answer → World → Out
unfolding respond
after_text env (text s) w = respond env (codes "text/html") (λ _. ok (encode s)) w
after_text env (raw b) w = respond env (codes "text/html") (λ _. ok b) w
after_text env (response r) w = (ok (response r), w)
after_text env (mapping d) w = (ok (mapping d), w)
after_text env (items vs) w = (ok (items vs), w)
after_text env (template path context) w = (ok (template path context), w)
after_text env (other n) w = (ok (other n), w)

-- TextFormat.middleware
unfoldable pub text_format : Env → Middleware
unfolding after_text
text_format env w handler next = next w handler on_ok after_text env

-- `_templates`: the directory and the file's name, with the text
abbrev pub Templates : Type 0
Templates = List ((Str × Str) × Str)

save : Str × Str → Str → Templates → Templates
save (root, file) content [] = ((root, file), content) ∷ []
save (root, file) content (((r, f), old) ∷ templates) =
    if eqb r root && eqb f file
    then ((r, f), content) ∷ templates
    else ((r, f), old) ∷ save (root, file) content templates

ends_with_any : List Str → Str → Bool
ends_with_any [] s = false
ends_with_any (suffix ∷ suffixes) s = ends_with suffix s || ends_with_any suffixes s

-- TemplateFormat._check_and_save(files, root); `read` opens and reads a file.
unfoldable pub check_and_save :
    (read : Str → Str → Str) (formats files : List Str) (root : Str) → Templates → Templates
unfolding save ends_with_any
check_and_save read formats [] root templates = templates
check_and_save read formats (file ∷ files) root templates =
    check_and_save read formats files root (
      if ends_with_any formats file
      then save (root, file) (read root file) templates
      else templates)

-- TemplateFormat.init, over what `os.walk` gives for the directories
unfoldable pub load_templates :
    (read : Str → Str → Str) (formats : List Str) → List (Str × List Str) → Templates → Templates
unfolding check_and_save
load_templates read formats [] templates = templates
load_templates read formats ((root, files) ∷ walked) templates =
    load_templates read formats walked (check_and_save read formats files root templates)

-- TemplateFormat._get_template(name): the first file of that name, in any directory
unfoldable pub get_template : Str → Templates → Option Str
get_template name [] = none
get_template name (((root, file), content) ∷ templates) =
    if eqb file name then some content else get_template name templates

abbrev as_attr : Bytes × Value → Bytes × Attr
as_attr (k, v) = (k, value v)

-- {k: v.decode() if isinstance(v, bytes) else v for k, v in context.items()}, as `str` prints it
unfoldable pub decode_all : Env → Dict Attr → Result (Dict Str)
decode_all env [] = ok []
decode_all env ((k, value (Value.bytes b)) ∷ context) = do
  s ← env.decode b
  rest ← decode_all env context
  ok ((k, s) ∷ rest)
decode_all env ((k, a) ∷ context) = do rest ← decode_all env context; ok ((k, env.to_str a) ∷ rest)

render_found : Env → Option Str → Dict Attr → Result Bytes
unfolding decode_all safe_substitute
render_found env none context = err wrong_template
render_found env (some []) context = err wrong_template
render_found env (some (c ∷ content)) context = do
  kwargs ← decode_all env context
  ok (encode (safe_substitute kwargs (c ∷ content)))

-- TemplateFormat.render(path, context, request): the request's scope is merged over the context.
unfoldable pub render : Env → Templates → Str → Dict Value → Request → Result Bytes
unfolding render_found get_template
render env templates path context request =
    render_found env (get_template path templates) (merge (map as_attr context) request.scope)

-- What `_get_template` compares with the files' names; a value that is not text equals none of them, and
-- no file's name is empty.
abbrev path_of_value : Value → Str
path_of_value (Value.str s) = s
path_of_value v = []

-- `template and isinstance(response, dict)`
render_mapping : Env → Templates → Value → Dict Value → World → Out
unfolding respond render
render_mapping env templates v d w =
    if truthy v
    then respond env (codes "text/html") (λ w'. render env templates (path_of_value v) d w'.request)
        w
    else (ok (mapping d), w)

after_template : Env → Templates → Value → Answer → World → Out
unfolding render_mapping respond render
after_template env templates v (template path context) w =
    respond env (codes "text/html") (λ w'. render env templates path context w'.request) w
after_template env templates v (mapping d) w = render_mapping env templates v d w
after_template env templates v (response r) w = (ok (response r), w)
after_template env templates v (items vs) w = (ok (items vs), w)
after_template env templates v (text s) w = (ok (text s), w)
after_template env templates v (raw b) w = (ok (raw b), w)
after_template env templates v (other n) w = (ok (other n), w)

-- TemplateFormat.middleware
unfoldable pub template_format : Env → Templates → Middleware
unfolding after_template get_item
template_format env templates w handler next =
    get_item env (codes "template") Value.none_value w
    on_ok (λ v w'. next w' handler on_ok after_template env templates v)
