-- ===== src/Middleware/Default.antt =====
-- levin/app.py: the components of the application `app`, in order, and the chain of their middlewares.
pub mod Answers
use levin.Prelude.{
  ℕ, zero, suc, ◌+◌, Bool, true, false, Option, none, some, List, [], ◌∷◌, ◌++◌, map, get_elem?,
}
use levin.Bytes.{Str, codes}
use levin.Result.{Error, Result, ok, err}
use levin.Dict.{Dict}
use levin.Common.{Value, Request}
use levin.Component.{ClassVar, Component}
use levin.Application.Chain.{create_handler}
use levin.PatchRequest
use levin.Router
use levin.Router.{Routes}
use levin.Middleware.{World, Out, Callable, plain, Middleware, Env, ◌on_ok◌, in_world}
use levin.Middleware.Formats.{Templates, json_format, text_format, template_format}
use levin.Middleware.Handlers.{add_request, inject, sync_to_async, run_process, profile}
use levin.Middleware.Guards.{error_handle, time_limit, logger, push}

-- A component with the variables of its own class that are no methods, in the class's order: Python's
-- `vars` does not show those of a base class.
abbrev member : ℕ → Str → Bool → List Str → Component
member ident name has_middleware settings = record {
  ident = ident;
  name = name;
  class_vars =
      map (λ (setting : Str). record { name = setting; is_property = false; is_method = false })
        settings;
  settings = [];
  enable = true;
  has_middleware = has_middleware;
  start_error = none;
  stop_error = none;
}

-- app
unfoldable pub default_components : List Component
default_components =
    member 0 (codes "patch_request") true (
      codes "json_loads"
      ∷ codes "json_content_type"
      ∷ codes "parse_url"
      ∷ codes "parse_query_params"
      ∷ [])
    ∷ member 1 (codes "push") true []
    ∷ member 2 (codes "logger") true (
        codes "level"
        ∷ codes "logger_name"
        ∷ codes "message_format"
        ∷ codes "logger_config"
        ∷ codes "extra"
        ∷ [])
    ∷ member 3 (codes "error_handle") true (codes "on_error" ∷ [])
    ∷ member 4 (codes "handler_timeout") true (codes "timeout" ∷ codes "loop" ∷ [])
    ∷ member 5 (codes "route") true (codes "not_found_handler" ∷ [])
    ∷ member 6 (codes "process_executor") true (codes "executor_class" ∷ codes "condition" ∷ [])
    ∷ member 7 (codes "profile") true (
        codes "threshold"
        ∷ codes "get_time"
        ∷ codes "depth"
        ∷ codes "with_memory"
        ∷ codes "callback"
        ∷ codes "profile_condition"
        ∷ [])
    ∷ member 8 (codes "sync_to_async") true (codes "executor_kwargs" ∷ codes "condition" ∷ [])
    ∷ member 9 (codes "json_format") true
        (codes "json_dumps" ∷ codes "default" ∷ codes "content_type" ∷ codes "types_to_format" ∷ [])
    ∷ member 10 (codes "text_format") true (codes "content_type" ∷ [])
    ∷ member 11 (codes "templates") true (
        codes "templates_dirs"
        ∷ codes "templates_formats"
        ∷ codes "content_type"
        ∷ codes "Template"
        ∷ [])
    ∷ member 12 (codes "injector") true (codes "Inject" ∷ [])
    ∷ member 13 (codes "add_request") true []
    ∷ member 14 (codes "cli") false []
    ∷ []

-- PatchRequest.middleware
unfoldable pub patch : Middleware
patch w handler next = next (record w { request = PatchRequest.middleware w.request }) handler

-- What the program adds to the components: the templates, the routes, and the functions behind the numbers
-- of the routes' handlers.
pub record Program : Type 0 where
  pub env : Env
  pub templates : Templates
  pub routes : Routes
  pub not_found : ℕ
  pub functions : ℕ → Callable

to_route : Program → World → (World → Callable → Out) → Result ℕ × Request → Out
to_route program w next found = in_world w found on_ok (λ n w'. next w' (program.functions n))

-- HttpRouter.middleware, with the call of the rest of the chain
unfoldable pub route : Program → Middleware
unfolding to_route in_world
route program w handler next =
    to_route program w next
      (Router.middleware program.env.lazy_call program.not_found program.routes w.request)

-- The middlewares, by the components' identities
unfoldable pub middlewares : Program → List Middleware
middlewares program =
    patch
    ∷ push program.env
    ∷ logger program.env
    ∷ error_handle program.env
    ∷ time_limit program.env
    ∷ route program
    ∷ run_process program.env
    ∷ profile program.env
    ∷ sync_to_async program.env
    ∷ json_format program.env
    ∷ text_format program.env
    ∷ template_format program.env program.templates
    ∷ inject program.env
    ∷ add_request
    ∷ []

pass : Option Middleware → Middleware
pass none w handler next = next w handler
pass (some m) w handler next = m w handler next

unfoldable pub behave : Program → ℕ → Middleware
unfolding middlewares pass
behave program ident = pass (get_elem? (middlewares program) ident)

-- app.handler of an application with these components
unfoldable pub respond_by : Program → List Component → Callable → World → Out
unfolding behave create_handler
respond_by program cs handler w =
    create_handler (behave program) (λ w' h. program.env.call h w') cs handler w
