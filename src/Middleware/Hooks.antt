-- ===== src/Middleware/Hooks.antt =====
-- levin/components: the hooks `init`, `start` and `stop` of logger.py, concurrent.py and limit.py, and small
-- functions beside the middlewares: `_default` and the command `list` of formating.py, `Inject` of inject.py,
-- and `_default_profile_condition` of profiling.py. The pools of concurrent.futures are a parameter.
use levin.Prelude.{ℕ, ◌+◌, ◌*◌, ◌≡◌, refl, Bool, Option, none, some, List, [], ◌∷◌, ltb, map}
use levin.Bytes.{Bytes, Str, codes}
use levin.Result.{Result, ok, err, attribute_error, type_error, ◌>>=◌}
use levin.Common.{Value, Response, new_response}
use levin.Middleware.{Param, Executor}
use levin.Middleware.Formats.{Templates}

-- A call of the logging library: the configuration, by a number, and a record of a logger.
pub data Logging : Type 0 where
  dict_config : ℕ → Logging
  info : (logger_name message : Str) → Logging

-- LoggerComponent, of which `logger` is the name of `_logger`, if there is one.
pub record Logger : Type 0 where
  pub logger_name : Str
  pub logger_config : Option ℕ
  pub logger : Option Str

abbrev config_calls : Option ℕ → List Logging
config_calls none = []
config_calls (some config) = dict_config config ∷ []

-- LoggerComponent.init(app); an empty configuration is none.
unfoldable pub init_logger : Logger → List Logging × Logger
init_logger l = (config_calls l.logger_config, record l { logger = some l.logger_name })

inform : Str → Option Str → Result (List Logging)
inform message none = err attribute_error
inform message (some name) = ok (info name message ∷ [])

-- LoggerComponent.start(app)
unfoldable pub start_logger : Logger → Result (List Logging)
unfolding inform
start_logger l = inform (codes "Start server") l.logger

-- LoggerComponent.stop(app)
unfoldable pub stop_logger : Logger → Result (List Logging)
unfolding inform
stop_logger l = inform (codes "Server stop") l.logger

-- `executor_class(max_workers=..., **executor_kwargs)` and `shutdown(wait=True)`
pub record PoolOps (X : Type 0) : Type 0 where
  pub open_pool : Executor → (max_workers : ℕ) → X
  pub shutdown : X → X

-- _Executor, and the kinds of it: SyncToAsync has threads, RunProcess processes.
pub record ExecutorComponent (X : Type 0) : Type 0 where
  pub executor_class : Executor
  pub max_workers : ℕ
  pub executor : Option X

-- 2 * multiprocessing.cpu_count() + 1
abbrev pub default_workers : ℕ → ℕ
default_workers cpu_count = 2 * cpu_count + 1

module _ {X : Type 0} (pools : PoolOps X) where
  -- _Executor.start(app)
  unfoldable pub start_executor : ExecutorComponent X → ExecutorComponent X
  start_executor c = record c { executor = some (pools.open_pool c.executor_class c.max_workers) }

  -- _Executor.stop(app)
  unfoldable pub stop_executor : ExecutorComponent X → Result (ExecutorComponent X)
  stop_executor c = elim c.executor [
    | none ↦ err attribute_error
    | some pool ↦ ok (record c { executor = some (pools.shutdown pool) })
  ]

  -- `self._executor` in _Executor._call
  unfoldable pub executor_of : ExecutorComponent X → Result X
  executor_of c = elim c.executor [ none ↦ err attribute_error | some pool ↦ ok pool ]

  -- A start opens a pool for the calls, a stop behind it shuts that pool down, and a start behind the stop opens
  -- a new one.
  pub start_executor-stop :
      (c : ExecutorComponent X)
      → let pool = pools.open_pool c.executor_class c.max_workers in
        (executor_of (start_executor c) ≡ ok pool)
        × ((stop_executor (start_executor c) >>= λ d. executor_of d) ≡ ok (pools.shutdown pool))
        × ((stop_executor (start_executor c) >>= λ d. ok (start_executor d))
            ≡ ok (start_executor c))
  unfolding start_executor stop_executor executor_of
  start_executor-stop c = (refl, refl, refl)

-- TimeLimit.start(app): the loop of the settings, or the running one.
abbrev pub loop_of : Option ℕ → ℕ → ℕ
loop_of none running = running
loop_of (some loop) running = loop

-- formating._default(obj), the part of a value that `json.dumps` cannot print
unfoldable pub json_default : (Bytes → Result Str) → Value → Result Str
json_default decode (Value.bytes b) = decode b
json_default decode v = err type_error

-- InjectFromScope.Inject(value_name), as the annotation of a parameter
abbrev pub injected_as : Str → Bytes → Param
injected_as name value_name = record { name = name; injected = some value_name }

-- _default_profile_condition(request, time_spend, threshold)
abbrev pub default_profile_condition : (time_spend threshold : ℕ) → Bool
default_profile_condition time_spend threshold = ltb threshold time_spend

-- TemplateFormat.list(), the command: the keys of `_templates`, directories and files
abbrev pub list_templates : Templates → List (Str × Str)
list_templates templates = map (λ (entry : (Str × Str) × Str). entry.0) templates

-- core/app.py: what `_handler`, the default handler of an application, returns
unfoldable pub levin_page : Response
unfolding new_response
levin_page = new_response 200 (codes "<html><head></head><body>LEVIN</body></html>") []
