-- ===== src/Middleware/Handlers.antt =====
-- levin/components/inject.py, concurrent.py and profiling.py: the middlewares that change the handler.
pub mod Kinds
pub mod Profiling
use levin.Prelude.{
  ℕ, Bool, true, false, not, ◌&&◌, Option, none, some, List, [], ◌∷◌, ◌++◌, if◌then◌else◌,
}
use levin.Bytes.{Bytes, Str, codes, eqb}
use levin.Result.{Error, Result, ok, err, attribute_error}
use levin.Dict.{Dict, put}
use levin.Component.{truthy}
use levin.Common.{Value, Attr, Request, get_attr}
use levin.Middleware.{
  Answer, Param, Executor, threads, processes, Callable, plain, traced, on_executor, with_request,
  with_kwargs, Message, add_to_profile, World, Out, Middleware, Env, ◌on_ok◌, get_item,
}

abbrev variadic : Str → Param
variadic name = record { name = name; injected = none }

without_first : List Param → List Param
without_first [] = []
without_first (p ∷ params) = params

-- inspect.signature(handler).parameters: a partial's positional argument takes the first parameter, one
-- by name stays listed; `_handler(request)` of an executor and `_wrap(*args, **kwargs)` of a trace show
-- their own.
unfoldable pub params_of : Callable → List Param
unfolding without_first
params_of (plain ident is_coroutine params) = params
params_of (traced depth handler) = variadic (codes "args") ∷ variadic (codes "kwargs") ∷ []
params_of (on_executor executor handler) = variadic (codes "request") ∷ []
params_of (with_request handler) = without_first (params_of handler)
params_of (with_kwargs kwargs handler) = params_of handler

-- asyncio.iscoroutinefunction(handler), false of a partial
unfoldable pub is_coroutine_function : Callable → Bool
is_coroutine_function (plain ident is_coroutine params) = is_coroutine
is_coroutine_function (traced depth handler) = is_coroutine_function handler
is_coroutine_function (on_executor executor handler) = true
is_coroutine_function (with_request handler) = false
is_coroutine_function (with_kwargs kwargs handler) = false

unfoldable pub has_param : Str → List Param → Bool
has_param name [] = false
has_param name (p ∷ params) = if eqb p.name name then true else has_param name params

-- AddRequest.middleware
unfoldable pub add_request : Middleware
unfolding params_of has_param
add_request w handler next =
    next w
      (if has_param (codes "request") (params_of handler) then with_request handler else handler)

-- The loop of InjectFromScope.middleware.
unfoldable pub inject_params : Env → List Param → Dict Value → World → Result (Dict Value) × World
unfolding get_item
inject_params env [] kwargs w = (ok kwargs, w)
inject_params env (p ∷ params) kwargs w = elim p.injected [
  | none ↦ inject_params env params kwargs w
  | some name ↦
      get_item env name Value.none_value w
      on_ok (λ v w'. inject_params env params (put p.name v kwargs) w')
]

-- `if kwargs: handler = partial(handler, **kwargs)`
unfoldable pub bind_kwargs : Dict Value → Callable → Callable
bind_kwargs [] handler = handler
bind_kwargs (kwarg ∷ kwargs) handler = with_kwargs (kwarg ∷ kwargs) handler

-- InjectFromScope.middleware
unfoldable pub inject : Env → Middleware
unfolding inject_params params_of bind_kwargs
inject env w handler next =
    inject_params env (params_of handler) [] w
    on_ok (λ kwargs w'. next w' (bind_kwargs kwargs handler))

-- _Executor.middleware with the condition's value
unfoldable pub execute_if : Executor → (World → Callable → Out) → Callable → Bool → World → Out
execute_if executor next handler condition w =
    next w (if condition then on_executor executor handler else handler)

wants_process : Env → World → Result Value × World
unfolding get_item
wants_process env w = get_item env (codes "process") (Value.bool false) w

-- SyncToAsync.middleware; the scope is read only for a handler that is not a coroutine function.
unfoldable pub sync_to_async : Env → Middleware
unfolding is_coroutine_function wants_process execute_if
sync_to_async env w handler next =
    if is_coroutine_function handler
    then execute_if threads next handler false w
    else (wants_process env w on_ok (λ v w'. execute_if threads next handler (not (truthy v)) w'))

-- RunProcess.middleware
unfoldable pub run_process : Env → Middleware
unfolding wants_process execute_if
run_process env w handler next =
    wants_process env w on_ok (λ v w'. execute_if processes next handler (truthy v) w')

-- _request_hash(request)
abbrev pub request_hash : Request → Bytes
request_hash request = request.raw_path ++ request.method

unfoldable pub has_target : Bytes → List Bytes → Bool
has_target key [] = false
has_target key (target ∷ targets) = if eqb target key then true else has_target key targets

-- self._targets.remove(key)
unfoldable pub remove_target : Bytes → List Bytes → List Bytes
remove_target key [] = []
remove_target key (target ∷ targets) =
    if eqb target key then targets else target ∷ remove_target key targets

-- `finally: e`, where `e` may raise: then that is raised instead.
abbrev pub finally : Out → (World → Option Error × World) → Out
finally (result, w) f = elim (f w).0 [ none ↦ (result, (f w).1) | some e ↦ (err e, (f w).1) ]

-- Whether `profile.add_target(handler)` finds a `__code__`: partials have none.
abbrev pub has_code : Callable → Bool
has_code (plain ident is_coroutine params) = true
has_code (traced depth handler) = true
has_code (on_executor executor handler) = true
has_code (with_request handler) = false
has_code (with_kwargs kwargs handler) = false

-- The end of `async with self._lock`
unfoldable pub release : Out → Out
release (result, w) = (result, record w { locked = false })

-- ProfileHandler._run_with_profile, of a component whose depth is 1
unfoldable pub run_with_profile : Env → Middleware
unfolding remove_target get_item release
run_with_profile env w handler next = release (
    get_item env (codes "depth") (Value.int 1)
      (record w { targets = remove_target (request_hash w.request) w.targets; locked = true })
    on_ok (λ depth w'.
        if has_code handler
        then finally (next w' (traced depth handler)) (λ w''. (env.profile_callback handler, w''))
        else (err attribute_error, w')))

log_profile : Result Value × Request → World → Option Error × World
log_profile (err e, request) w = (some e, record w { request = request })
log_profile (ok v, request) w = (
  none,
  record w {
    request = request;
    targets = w.targets ++ request_hash request ∷ [];
    log = w.log ++ add_to_profile ∷ [];
  },
)

judge : Env → Result Bool → World → Option Error × World
unfolding log_profile get_attr
judge env (err e) w = (some e, w)
judge env (ok false) w = (none, w)
judge env (ok true) w = log_profile (get_attr env.lazy_call (codes "logger") w.request) w

judged : Env → Result Value × World → Option Error × World
unfolding judge
judged env (err e, w) = (some e, w)
judged env (ok condition, w) = judge env (env.profile_condition condition w) w

-- The `finally` of ProfileHandler.middleware; None stands for the component's own condition.
pub after_call : Env → World → Option Error × World
unfolding judged get_item
after_call env w = judged env (get_item env (codes "profile_condition") Value.none_value w)

-- ProfileHandler.middleware
unfoldable pub profile : Env → Middleware
unfolding run_with_profile after_call has_target
profile env w handler next =
    if has_target (request_hash w.request) w.targets && not w.locked
    then run_with_profile env w handler next
    else finally (next w handler) (after_call env)
