-- ===== src/Application/Tests.antt =====
-- An application of three components: one that starts, one that is disabled, one whose hook raises.
use levin.Prelude.{
  ℕ, ◌≡◌, ◌≢◌, refl, Bool, true, false, Option, none, some, List, [], ◌∷◌, ◌++◌, inl, inr, arith,
  if◌then◌else◌,
}
use levin.Bytes.{Str, codes}
use levin.Result.{Error, raised, value_error, disable_component}
use levin.Dict.{Dict}
use levin.Common.{Value}
use levin.Component.{Component, guarded_start}
use levin.Application.{Application, Call, start_app, configure_app}
use levin.Application.Chain.{create_handler, create_handler_nested}
use levin.Application.Life.{active, start_calls, start_app_lem, start_app_fails}
use levin.Application.Config.{configure_app_lem, configured}

abbrev plain : ℕ → Str → Bool → Option Error → Component
plain ident name enable start_error = record {
  ident = ident;
  name = name;
  class_vars = [];
  settings = [];
  enable = enable;
  has_middleware = true;
  start_error = start_error;
  stop_error = none;
}

abbrev log : Component
log = plain 1 (codes "log") true none

abbrev push : Component
push = plain 2 (codes "push") false none

abbrev broken : Component
broken = plain 3 (codes "broken") true (some (raised 5))

abbrev app_of : List Component → Application
app_of cs = record { components = cs; started = false; handler = none; calls = [] }

log_starts : guarded_start log ≡ none
unfolding guarded_start
log_starts = refl

push_disabled : guarded_start push ≡ some disable_component
unfolding guarded_start
push_disabled = refl

broken_raises : guarded_start broken ≡ some (raised 5)
unfolding guarded_start
broken_raises = refl

other_error : raised 5 ≢ disable_component
other_error e = cc e

abbrev two : List Component
two = log ∷ push ∷ []

start_app_lem_example : start_app (app_of two) ≡ (
  none,
  record {
    components = active two;
    started = true;
    handler = some (active two);
    calls = [] ++ start_calls two;
  },
)
start_app_lem_example =
    start_app_lem (app_of two) refl ((omega arith, tt), (tt, tt))
      (inl log_starts, (inr push_disabled, tt))

only_log : active two ≡ log ∷ []
unfolding guarded_start
only_log = refl

start_app_fails_example :
    (failed : Application) × (start_app (app_of (log ∷ broken ∷ push ∷ []))
      ≡ (some (raised 5), failed))
    × (failed ≡ record (app_of (log ∷ broken ∷ push ∷ [])) {
      started = true;
      calls = [] ++ start_calls (log ∷ []) ++ Call.start 3 ∷ [];
    })
    × (start_app failed ≡ (none, failed))
start_app_fails_example =
    start_app_fails (app_of (log ∷ broken ∷ push ∷ [])) (log ∷ []) (push ∷ []) broken (raised 5)
      refl refl (inl log_starts, tt) broken_raises other_error

-- A middleware that writes its number before and after the rest.
abbrev trace : ℕ → ℕ → ℕ → (ℕ → ℕ → List ℕ) → List ℕ
trace ident request handler next = ident ∷ next request handler ++ ident ∷ []

abbrev run : ℕ → ℕ → List ℕ
run request handler = handler ∷ []

create_handler_nested_example :
    (create_handler trace run two 9 0 ≡ (
      if true
      then trace 1 0 9 (λ r h. create_handler trace run (push ∷ []) h r)
      else create_handler trace run (push ∷ []) 9 0))
    × (create_handler trace run [] 9 0 ≡ 9 ∷ [])
create_handler_nested_example = create_handler_nested trace run log (push ∷ []) 9 0

abbrev known_config : Dict (Dict Value)
known_config = (codes "push", (codes "enable", Value.bool true) ∷ []) ∷ []

configure_app_lem_example :
    let done = record (app_of two) { components = configured known_config two } in
    (configure_app known_config (app_of two) ≡ (none, done))
    × (configure_app (known_config ++ (codes "nope", []) ∷ []) (app_of two)
        ≡ (some value_error, done))
configure_app_lem_example =
    configure_app_lem (app_of two) known_config [] (codes "nope") [] ((omega arith, tt), (tt, tt))
      (refl, tt) refl
