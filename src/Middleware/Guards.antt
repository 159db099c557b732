-- ===== src/Middleware/Guards.antt =====
-- levin/components: `ErrorHandle` of common.py, limit.py, logger.py and h2.py, the middlewares around the
-- others.
pub mod Kinds
use levin.Prelude.{
  ℕ, Bool, true, false, Option, none, some, List, [], ◌∷◌, ◌++◌, map, length, if◌then◌else◌,
  is_empty,
}
use levin.Bytes.{Bytes, Str, codes}
use levin.Bytes.Utf8.{encode}
use levin.Result.{Error, Result, ok, err, attribute_error, type_error, cancelled_error, ◌>>=◌}
use levin.Dict.{Dict}
use levin.Component.{truthy}
use levin.Common.{
  Value, Attr, value, lazy, create_add_push, Request, Response, Push, new_response, set, Function,
}
use levin.Router.{format_from, in_text}
use levin.Middleware.{
  Answer, response, mapping, items, text, raw, template, other, Message, access, World, Out,
  Callable, Middleware, Env, ◌on_ok◌, get_item,
}

handle_error : Env → Out → Out
handle_error env (ok a, w) = (ok a, w)
handle_error env (err e, w) = (env.on_error w e, w)

-- ErrorHandle.middleware
unfoldable pub error_handle : Env → Middleware
unfolding handle_error
error_handle env w handler next = handle_error env (next w handler)

abbrev pub timeout_response : Response
timeout_response = new_response 500 (codes "Timeout") []

catch_cancelled : Out → Out
catch_cancelled (err cancelled_error, w) = (ok (response timeout_response), w)
catch_cancelled (err e, w) = (err e, w)
catch_cancelled (ok a, w) = (ok a, w)

-- TimeLimit.middleware: a task that is late is cancelled, somewhere on its way.
unfoldable pub time_limit : Env → Middleware
unfolding catch_cancelled
time_limit env w handler next =
    if env.is_late w
    then (ok (response timeout_response), env.cancelled_midway w)
    else catch_cancelled (next w handler)

access_message : Env → Response → World → Result Message
access_message env r w = do
  method ← env.decode w.request.method
  path ← env.decode w.request.raw_path
  protocol ← env.decode w.request.protocol
  transport ← env.transport_info w
  ok (access r.status method path protocol (length r.body) w.request.stream transport)

log_message : Response → Result Message → World → Out
log_message r (err e) w = (err e, w)
log_message r (ok message) w = (ok (response r), record w { log = w.log ++ message ∷ [] })

-- An answer that is not a Response has no `status`.
log_access : Env → Answer → World → Out
unfolding access_message log_message
log_access env (response r) w = log_message r (access_message env r w) w
log_access env (mapping d) w = (err attribute_error, w)
log_access env (items vs) w = (err attribute_error, w)
log_access env (text s) w = (err attribute_error, w)
log_access env (raw b) w = (err attribute_error, w)
log_access env (template path context) w = (err attribute_error, w)
log_access env (other n) w = (err attribute_error, w)

-- `set` on the world's request, of an attribute that is not rewritten
abbrev pub set_item : Bytes → Attr → World → World
set_item key a w = record w { request = set key a false w.request }

-- The logger, as an attribute
abbrev pub logger_value : Attr
logger_value = value (Value.foreign 0)

-- LoggerComponent.middleware
unfoldable pub logger : Env → Middleware
unfolding log_access
logger env w handler next =
    next (set_item (codes "logger") logger_value w) handler on_ok log_access env

-- `if request.get("_pushes"): response.pushes = ...`; only `add_push` writes the attribute, a list.
abbrev with_pushes : Value → Response → Response
with_pushes (Value.push_list []) r = r
with_pushes (Value.push_list (push ∷ pushes)) r = record r { pushes = push ∷ pushes }
with_pushes v r = r

scope_text : Env → Dict Attr → Dict Str
scope_text env [] = []
scope_text env ((k, a) ∷ scope) = (k, env.to_str a) ∷ scope_text env scope

-- request.get("push").format(**request._scope).encode(), of a setting that is text
push_path : Env → Value → World → Result (Option Bytes)
unfolding scope_text format_from
push_path env (Value.str []) w = ok none
push_path env (Value.str (c ∷ s)) w = do
  path ← format_from (scope_text env w.request.scope) in_text (c ∷ s)
  ok (some (encode path))
push_path env v w = if truthy v then err attribute_error else ok none

-- `response.pushes.append(...)`. The list is the scope's own where that was written to the response, so
-- the scope shows the new push too.
append_push : Value → Response → Result (Option Bytes) → World → Out
append_push v r (err e) w = (err e, w)
append_push v r (ok none) w = (ok (response r), w)
append_push (Value.push_list (first ∷ pushes)) r (ok (some path)) w =
    let added = r.pushes ++ record { path = path; method = codes "GET" } ∷ [] in
    (
      ok (response (record r { pushes = added })),
      record w { request = set (codes "_pushes") (value (Value.push_list added)) true w.request },
    )
append_push v r (ok (some path)) w = (
  ok (
      response
        (record r { pushes = r.pushes ++ record { path = path; method = codes "GET" } ∷ [] })),
  w,
)

push_response : Env → Response → World → Out
unfolding append_push push_path get_item
push_response env r w = get_item env (codes "_pushes") Value.none_value w on_ok (λ v w'.
    get_item env (codes "push") Value.none_value w'
    on_ok (λ p w''. append_push v (with_pushes v r) (push_path env p w'') w''))

-- Pushes on an answer that is not a Response, where there are any to write: no object but a Response is
-- taken to have the attribute.
push_other : Env → Answer → World → Out
unfolding get_item
push_other env a w = get_item env (codes "_pushes") Value.none_value w on_ok (λ v w'.
    get_item env (codes "push") Value.none_value w' on_ok (λ p w''. (
      (if truthy v then err attribute_error else (if truthy p then err attribute_error else ok a)),
      w'',
    )))

after_push : Env → Answer → World → Out
unfolding push_response push_other
after_push env (response r) w = push_response env r w
after_push env (mapping d) w = push_other env (mapping d) w
after_push env (items vs) w = push_other env (items vs) w
after_push env (text s) w = push_other env (text s) w
after_push env (raw b) w = push_other env (raw b) w
after_push env (template path context) w = push_other env (template path context) w
after_push env (other n) w = push_other env (other n) w

-- Push.middleware
unfoldable pub push : Env → Middleware
unfolding after_push
push env w handler next =
    next (set_item (codes "add_push") (lazy create_add_push) w) handler on_ok after_push env

add_to_pushes : Bytes → Bytes → Value → World → Result (Unit {0}) × World
add_to_pushes path method (Value.push_list pushes) w =
    let added = pushes ++ record { path = path; method = method } ∷ [] in
    (
      ok tt,
      record w { request = set (codes "_pushes") (value (Value.push_list added)) true w.request },
    )
add_to_pushes path method v w = (err attribute_error, w)

-- The function that Push._create_add_push makes, of a path that is bytes
unfoldable pub add_push : Env → Bytes → Bytes → World → Result (Unit {0}) × World
unfolding add_to_pushes get_item
add_push env path method w =
    get_item env (codes "_pushes") (Value.push_list []) w on_ok add_to_pushes path method
