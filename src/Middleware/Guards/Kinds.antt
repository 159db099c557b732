-- ===== src/Middleware/Guards/Kinds.antt =====
-- levin/components: what the middlewares around the others give.
use levin.Prelude.{◌≡◌, Bool-cases, inl, inr, Option, none, some, [], ◌∷◌}
use levin.Result.{Error, Result, ok, err, cancelled_error}
use levin.Bytes.{Bytes}
use levin.Common.{Value, Response}
use levin.Middleware.{Message, Answer, response, World, Out, Callable, Env, get_item}
use levin.Middleware.Ends.{IsResponse, Ends, Turns, Ends-on_ok, Ends-bind}
use levin.Middleware.Guards.{
  error_handle, handle_error, time_limit, catch_cancelled, logger, log_access, log_message,
  access_message, push, after_push, push_response, append_push,
}

-- The call returned a Response.
abbrev pub IsAnswered : Out → Type 0
IsAnswered (ok (response r), w) = Unit
IsAnswered _ = ⊥

-- What the setting `on_error` of ErrorHandle promises: a Response for any exception.
abbrev pub AlwaysResponds : Env → Type 0
AlwaysResponds env = (w : World) (e : Error) → (r : Response) × (env.on_error w e ≡ ok (response r))

catch_cancelled-Ends : (out : Out) → Ends IsResponse out → Ends IsResponse (catch_cancelled out)
unfolding catch_cancelled
catch_cancelled-Ends (ok a, w) h = h
catch_cancelled-Ends (err cancelled_error, w) h = tt
catch_cancelled-Ends (err e, w) h = tt

pub time_limit-Turns : (env : Env) → Turns IsResponse IsResponse (time_limit env)
unfolding time_limit
time_limit-Turns env w handler next h = elim (Bool-cases (env.is_late w)) [
  | inl e ↦ rw e tt
  | inr e ↦ rw e (catch_cancelled-Ends (next w handler) (h w handler))
]

handle_error-IsAnswered :
    (env : Env)
    → AlwaysResponds env
    → (out : Out) → Ends IsResponse out
    → IsAnswered (handle_error env out)
unfolding handle_error
handle_error-IsAnswered env k (ok (response r), w) h = tt
handle_error-IsAnswered env k (ok a, w) h = absurd h
handle_error-IsAnswered env k (err e, w) h = rw ((k w e).1) tt

pub error_handle-IsAnswered :
    (env : Env)
    → AlwaysResponds env
    → (w : World) (handler : Callable) (next : World → Callable → Out)
    → Ends IsResponse (next w handler)
    → IsAnswered (error_handle env w handler next)
unfolding error_handle
error_handle-IsAnswered env k w handler next h = handle_error-IsAnswered env k (next w handler) h

pub IsAnswered-Ends : (out : Out) → IsAnswered out → Ends IsResponse out
IsAnswered-Ends (ok (response r), w) h = tt
IsAnswered-Ends (ok a, w) h = absurd h
IsAnswered-Ends (err e, w) h = tt

log_message-Ends :
    (r : Response) (m : Result Message) (w : World) → Ends IsResponse (log_message r m w)
unfolding log_message
log_message-Ends r (err e) w = tt
log_message-Ends r (ok m) w = tt

log_access-Ends :
    (env : Env) (a : Answer) (w : World) → IsResponse a → Ends IsResponse (log_access env a w)
unfolding log_access
log_access-Ends env (response r) w h = log_message-Ends r (access_message env r w) w
log_access-Ends env a w h = absurd h

pub logger-Turns : (env : Env) → Turns IsResponse IsResponse (logger env)
unfolding logger
logger-Turns env w handler next h =
    Ends-bind IsResponse IsResponse (next _ handler) (log_access env) (log_access-Ends env)
      (h _ handler)

append_push-Ends :
    (v : Value) (r : Response) (p : Result (Option Bytes)) (w : World)
    → Ends IsResponse (append_push v r p w)
unfolding append_push
append_push-Ends v r (err e) w = tt
append_push-Ends v r (ok none) w = tt
append_push-Ends (Value.push_list []) r (ok (some path)) w = tt
append_push-Ends (Value.push_list (first ∷ pushes)) r (ok (some path)) w = tt
append_push-Ends Value.none_value r (ok (some path)) w = tt
append_push-Ends v r (ok (some path)) w = tt

after_push-Ends :
    (env : Env) (a : Answer) (w : World) → IsResponse a → Ends IsResponse (after_push env a w)
unfolding after_push push_response
after_push-Ends env (response r) w h =
    Ends-on_ok IsResponse (get_item env _ _ w) _
      (λ v w'. Ends-on_ok IsResponse (get_item env _ _ w') _ (λ p w''. append_push-Ends v _ _ w''))
after_push-Ends env a w h = absurd h

pub push-Turns : (env : Env) → Turns IsResponse IsResponse (push env)
unfolding push
push-Turns env w handler next h =
    Ends-bind IsResponse IsResponse (next _ handler) (after_push env) (after_push-Ends env)
      (h _ handler)
