-- ===== src/Middleware/Tests.antt =====
-- The default application on a small program, and the theorems at it.
use levin.Prelude.{◌≡◌, refl, true, false, none, some, Option, List, [], ◌∷◌, if◌then◌else◌}
use levin.Bytes.{Str, codes, starts_with}
use levin.Result.{Error, Result, ok, err, value_error, raised}
use levin.Dict.{Dict, put, lookup}
use levin.Common.{Value, Attr, value, Request, Response, LazyCall, new_request, new_response}
use levin.Component.{Component, configure, get_configure_params, is_skipped, set_param}
use levin.Application.{configure_all, get_component, update}
use levin.Middleware.{
  Answer, response, mapping, text, World, Callable, plain, traced, with_request, Param, Env,
  get_item,
}
use levin.Middleware.Ends.{IsResponse, IsKnown, Ends}
use levin.Middleware.Template.{safe_substitute}
use levin.Middleware.Handlers.{
  profile, release, finally, after_call, has_target, remove_target, request_hash, has_param,
}
use levin.Middleware.Handlers.Profiling.{behind_profiler, profile-drops_request}
use levin.Middleware.Guards.Kinds.{IsAnswered, AlwaysResponds}
use levin.Middleware.Default.{Program, default_components, respond_by}
use levin.Middleware.Default.Answers.{guarded, guarded-IsAnswered}

abbrev no_lazy : LazyCall
no_lazy f request = (err value_error, request)

abbrev str_of : Attr → Str
str_of (value (Value.str s)) = s
str_of a = codes "?"

-- Handler 1 returns a dict, handler 2 a text, and any other raises.
abbrev called : Callable → Result Answer
called (with_request (plain n is_coroutine params)) = ok (mapping ((codes "a", Value.int n) ∷ []))
called (plain n is_coroutine params) = ok (text (codes "hello"))
called h = err (raised 1)

abbrev error_page : Response
error_page = new_response 500 (codes "error") []

abbrev small_env : Env
small_env = record {
  lazy_call = no_lazy;
  to_str = str_of;
  decode = λ b. ok b;
  json_dumps = λ a. ok (codes "{}");
  call = λ h w. (called h, w);
  on_error = λ w e. ok (response error_page);
  is_late = λ w. false;
  cancelled_midway = λ w. w;
  profile_condition = λ v w. ok false;
  profile_callback = λ h. none;
  transport_info = λ w. ok (codes "t");
}

abbrev takes_request : List Param
takes_request = record { name = codes "request"; injected = none } ∷ []

abbrev pub small_program : Program
small_program = record {
  env = small_env;
  templates = [];
  routes = [];
  not_found = 0;
  functions = λ n. plain n true takes_request;
}

abbrev asked : Request
asked = new_request (codes "/x") (codes "GET") (some []) [] (codes "HTTP/1.1") 0 (codes "http")

abbrev pub idle : World
idle = record { request = asked; targets = []; locked = false; log = [] }

abbrev watched : World
watched = record idle { targets = request_hash asked ∷ [] }

abbrev profiling : World
profiling = record idle { locked = true }

-- A name without braces ends at the first character that is none of its own.
unbraced : safe_substitute ((codes "a", codes "1") ∷ []) (codes "$a-$b $1") ≡ codes "1-$b $1"
unfolding safe_substitute lookup
unbraced = refl

pub called-IsKnown : (w : World) (h : Callable) → Ends IsKnown (called h, w)
called-IsKnown w (plain n is_coroutine params) = tt
called-IsKnown w (with_request (plain n is_coroutine params)) = tt
called-IsKnown w (with_request h) = tt
called-IsKnown w h = tt

pub always_error_page : AlwaysResponds small_env
always_error_page w e = (error_page, refl)

guarded-IsAnswered_example :
    IsAnswered (guarded small_program idle (plain 9 true []))
    × Ends IsResponse (respond_by small_program default_components (plain 9 true []) idle)
guarded-IsAnswered_example =
    guarded-IsAnswered small_program called-IsKnown always_error_page idle (plain 9 true [])

-- The first request is not profiled and its handler gets the request; the second one is.
profile-drops_request_example :
    profile small_env watched
      (plain 1 true takes_request)
      (behind_profiler small_env (λ w h. (called h, w)))
    ≡ (if has_target (request_hash asked) watched.targets
        then release (
            finally
              (called (traced (Value.int 1) (plain 1 true takes_request)), profiling)
              (λ w''. (none, w'')))
        else finally
            (called (with_request (plain 1 true takes_request)), watched)
            (after_call small_env))
profile-drops_request_example =
    profile-drops_request small_env watched profiling 1 takes_request (Value.int 1)
      (λ w h. (called h, w)) has_request (refl, tt) refl depth_read
  where
    has_request : has_param (codes "request") takes_request ≡ true
    has_request = unfold has_param in refl

    depth_read :
        get_item small_env (codes "depth") (Value.int 1) (record watched {
          targets = remove_target (request_hash asked) watched.targets;
          locked = true;
        })
        ≡ (ok (Value.int 1), profiling)
    depth_read = unfold get_item remove_target lookup new_request in refl

-- The configuration of run.py. The setting `max_workers` belongs to the base class of the component
-- process_executor, and `path` to none: both are ignored without an error.
abbrev run_config : Dict (Dict Value)
run_config =
    (
      codes "templates",
      (codes "path", Value.str (codes "/")) ∷ (codes "enable", Value.bool false) ∷ [],
    )
    ∷ (
      codes "json_format",
      (codes "json_dumps", Value.foreign 1) ∷ (codes "default", Value.none_value) ∷ [],
    )
    ∷ (codes "process_executor", (codes "max_workers", Value.int 1) ∷ [])
    ∷ (codes "push", (codes "enable", Value.bool false) ∷ [])
    ∷ (codes "profile", (codes "depth", Value.int 2) ∷ [])
    ∷ []

abbrev settings_of : Option Component → Dict Value
settings_of none = []
settings_of (some c) = c.settings

run_configured : Option Error × List Component
run_configured = configure_all run_config default_components

max_workers_ignored :
    (run_configured.0 ≡ none)
    × (settings_of (get_component (codes "process_executor") run_configured.1) ≡ [])
    × (settings_of (get_component (codes "profile") run_configured.1)
        ≡ (codes "depth", Value.int 2) ∷ [])
unfolding run_configured configure_all get_component update default_components configure
    get_configure_params set_param is_skipped lookup put starts_with
max_workers_ignored = (refl, refl, refl)
