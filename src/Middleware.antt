-- ===== src/Middleware.antt =====
-- levin/components: what the middlewares share. A middleware is given the request, the handler and the rest
-- of the chain, and gives what it returns or raises, with the world after it.
pub mod Ends
pub mod Formats
pub mod Template
pub mod Handlers
pub mod Guards
pub mod Default
pub mod Hooks
pub mod Tests
use levin.Prelude.{ℕ, Bool, true, false, Option, none, some, List, [], ◌∷◌}
use levin.Bytes.{Bytes, Str}
use levin.Result.{Error, Result, ok, err}
use levin.Dict.{Dict}
use levin.Common.{Value, Attr, Request, Response, LazyCall, get}

-- What a handler may return, as the formatting components tell it: a Response, a dict, a list or a tuple,
-- a str, bytes, a Template with its path and context, or any other object.
pub data Answer : Type 0 where
  response : Response → Answer
  mapping : Dict Value → Answer
  items : List Value → Answer
  text : Str → Answer
  raw : Bytes → Answer
  template : Str → Dict Value → Answer
  other : ℕ → Answer

-- A parameter of a function, with the `_value_name` of its annotation, if it has one.
pub record Param : Type 0 where
  pub name : Str
  pub injected : Option Bytes

pub data Executor : Type 0 where
  threads processes : Executor

-- What a handler is: a function of the program, or what a middleware made of one. `traced` is the `_wrap`
-- of SimpleProfile.trace, `on_executor` the `_handler` of _Executor._call, the others are partials.
pub data Callable : Type 0 where
  plain : ℕ → (is_coroutine : Bool) → List Param → Callable
  traced : (depth : Value) → Callable → Callable
  on_executor : Executor → Callable → Callable
  with_request : Callable → Callable
  with_kwargs : Dict Value → Callable → Callable

-- A call of the logger.
pub data Message : Type 0 where
  access :
      (status : ℕ)
      → (method path protocol : Str) → (body_size stream : ℕ) → (transport : Str) → Message
  add_to_profile : Message

-- The request, the targets and the lock of the component ProfileHandler, and what is logged.
pub record World : Type 0 where
  pub request : Request
  pub targets : List Bytes
  pub locked : Bool
  pub log : List Message

abbrev pub Out : Type 0
Out = Result Answer × World

abbrev pub Middleware : Type 0
Middleware = World → Callable → (World → Callable → Out) → Out

-- What is not code of the components: lazy attributes, `str`, `bytes.decode`, `json.dumps`, the call of a
-- handler, the settings that are functions, and what the clock decides.
pub record Env : Type 0 where
  pub lazy_call : LazyCall
  pub to_str : Attr → Str
  pub decode : Bytes → Result Str
  pub json_dumps : Answer → Result Str
  pub call : Callable → World → Out
  pub on_error : World → Error → Result Answer
  pub is_late : World → Bool
  pub cancelled_midway : World → World
  pub profile_condition : Value → World → Result Bool
  pub profile_callback : Callable → Option Error
  pub transport_info : World → Result Str

-- `a = m; f(a)`, where `m` may raise
infixl 10 ◌on_ok◌
abbrev pub ◌on_ok◌ {ℓ κ} :
    {A : Type ℓ} {B : Type κ} → Result A × World → (A → World → Result B × World) → Result B × World
(err e, w) on_ok f = (err e, w)
(ok a, w) on_ok f = f a w

in_world : {A : Type 0} → World → Result A × Request → Result A × World
in_world w (r, request) = (r, record w { request = request })

-- request.get(item, default)
unfoldable pub get_item : Env → Bytes → Value → World → Result Value × World
unfolding in_world get
get_item env item default w = in_world w (get env.lazy_call item default w.request)
