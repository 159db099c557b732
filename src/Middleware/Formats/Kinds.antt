-- ===== src/Middleware/Formats/Kinds.antt =====
-- levin/components/formating.py: each formatting middleware narrows the kinds of answers.
use levin.Prelude.{Bool-cases, inl, inr}
use levin.Bytes.{Bytes, codes}
use levin.Bytes.Utf8.{encode}
use levin.Result.{Result, ok, err}
use levin.Dict.{Dict}
use levin.Common.{Value, Response}
use levin.Component.{truthy}
use levin.Middleware.{
  Answer, response, mapping, items, text, raw, template, other, World, Env, get_item,
}
use levin.Middleware.Ends.{
  IsResponse, IsJsonable, IsFormattable, IsKnown, Ends, Turns, Ends-on_ok, Ends-bind,
}
use levin.Middleware.Formats.{
  Templates, with_status, respond, respond_json, after_json, json_format, after_text, text_format,
  render_mapping, after_template, template_format,
}

-- Any kind that has the Responses.
abbrev HasResponse : (Answer → Type 0) → Type 0
HasResponse P = (r : Response) → P (response r)

with_status-Ends :
    (P : Answer → Type 0) (content_type : Bytes) (body : Result Bytes) (v : Value) (w : World)
    → HasResponse P
    → Ends P (with_status content_type body v, w)
unfolding with_status
with_status-Ends P content_type (err e) v w h = tt
with_status-Ends P content_type (ok b) v w h = h _

respond-Ends :
    (P : Answer → Type 0) (env : Env) (content_type : Bytes) (body : World → Result Bytes)
    (w : World)
    → HasResponse P
    → Ends P (respond env content_type body w)
unfolding respond
respond-Ends P env content_type body w h =
    Ends-on_ok P (get_item env _ _ w) _ (λ v w'. with_status-Ends P content_type (body w') v w' h)

after_json-Ends :
    (env : Env) (a : Answer) (w : World) → IsJsonable a → Ends IsResponse (after_json env a w)
unfolding after_json respond_json
after_json-Ends env (response r) w k = tt
after_json-Ends env (mapping d) w k =
    Ends-on_ok IsResponse (env.json_dumps (mapping d), w) _
      (λ s w'.
        respond-Ends IsResponse env (codes "application/json") (λ _. ok (encode s)) w' (λ r. tt))
after_json-Ends env (items vs) w k =
    Ends-on_ok IsResponse (env.json_dumps (items vs), w) _
      (λ s w'.
        respond-Ends IsResponse env (codes "application/json") (λ _. ok (encode s)) w' (λ r. tt))
after_json-Ends env (text s) w k = absurd k
after_json-Ends env (raw b) w k = absurd k
after_json-Ends env (template path context) w k = absurd k
after_json-Ends env (other n) w k = absurd k

pub json_format-Turns : (env : Env) → Turns IsJsonable IsResponse (json_format env)
unfolding json_format
json_format-Turns env w handler next h =
    Ends-bind IsJsonable IsResponse (next w handler) (after_json env) (after_json-Ends env)
      (h w handler)

after_text-Ends :
    (env : Env) (a : Answer) (w : World) → IsFormattable a → Ends IsJsonable (after_text env a w)
unfolding after_text
after_text-Ends env (response r) w k = tt
after_text-Ends env (mapping d) w k = tt
after_text-Ends env (items vs) w k = tt
after_text-Ends env (text s) w k =
    respond-Ends IsJsonable env (codes "text/html") (λ _. ok (encode s)) w (λ r. tt)
after_text-Ends env (raw b) w k =
    respond-Ends IsJsonable env (codes "text/html") (λ _. ok b) w (λ r. tt)
after_text-Ends env (template path context) w k = absurd k
after_text-Ends env (other n) w k = absurd k

pub text_format-Turns : (env : Env) → Turns IsFormattable IsJsonable (text_format env)
unfolding text_format
text_format-Turns env w handler next h =
    Ends-bind IsFormattable IsJsonable (next w handler) (after_text env) (after_text-Ends env)
      (h w handler)

render_mapping-Ends :
    (env : Env) (templates : Templates) (v : Value) (d : Dict Value) (w : World)
    → Ends IsFormattable (render_mapping env templates v d w)
unfolding render_mapping
render_mapping-Ends env templates v d w = elim (Bool-cases (truthy v)) [
  | inl e ↦ rw e (respond-Ends IsFormattable env _ _ w (λ r. tt))
  | inr e ↦ rw e tt
]

after_template-Ends :
    (env : Env) (templates : Templates) (v : Value) (a : Answer) (w : World)
    → IsKnown a
    → Ends IsFormattable (after_template env templates v a w)
unfolding after_template
after_template-Ends env templates v (response r) w k = tt
after_template-Ends env templates v (mapping d) w k = render_mapping-Ends env templates v d w
after_template-Ends env templates v (items vs) w k = tt
after_template-Ends env templates v (text s) w k = tt
after_template-Ends env templates v (raw b) w k = tt
after_template-Ends env templates v (template path context) w k =
    respond-Ends IsFormattable env _ _ w (λ r. tt)
after_template-Ends env templates v (other n) w k = absurd k

pub template_format-Turns :
    (env : Env) (templates : Templates)
    → Turns IsKnown IsFormattable (template_format env templates)
unfolding template_format
template_format-Turns env templates w handler next h =
    Ends-on_ok IsFormattable (get_item env _ _ w) _ (λ v w'.
      Ends-bind IsKnown IsFormattable (next w' handler) (after_template env templates v)
        (after_template-Ends env templates v) (h w' handler))
