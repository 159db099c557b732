-- ===== src/Application.antt =====
-- levin/core/app.py: the application, its components in order, and its life cycle. What the hooks of
-- the components do is written to a trace of calls; a hook that raises stops the operation there.
pub mod Chain
pub mod Life
pub mod Config
pub mod Tests
use levin.Prelude.{
  ℕ, zero, suc, Bool, true, false, not, Option, none, some, List, [], ◌∷◌, ◌++◌, reverse, length,
  ◌-◌, ◌==◌, if◌then◌else◌,
}
use levin.Bytes.{Str, codes, eqb}
use levin.Result.{Error, Result, ok, err, value_error, attribute_error, disable_component}
use levin.Dict.{Dict}
use levin.Common.{Value}
use levin.Component.{ClassVar, Component, configure, guarded_start}

-- The calls of components' hooks, each with the component's identity.
pub data Call : Type 0 where
  init start stop : ℕ → Call

-- `handler` is what `_create_handler` composed: the components whose middleware it holds, in the order
-- of the list when it ran.
pub record Application : Type 0 where
  pub components : List Component
  pub started : Bool
  pub handler : Option (List Component)
  pub calls : List Call

-- list.insert(i, x): past the end it appends.
unfoldable pub insert_at : ℕ → Component → List Component → List Component
insert_at zero c cs = c ∷ cs
insert_at (suc i) c [] = c ∷ []
insert_at (suc i) c (d ∷ cs) = d ∷ insert_at i c cs

-- `position or len(self._components)`
unfoldable pub position_or : Option ℕ → ℕ → ℕ
position_or none size = size
position_or (some zero) size = size
position_or (some (suc i)) size = suc i

-- The class variables of `MiddlewareComponent`.
unfoldable pub middleware_class_vars : List ClassVar
middleware_class_vars =
    record { name = codes "on_start"; is_property = false; is_method = false }
    ∷ record { name = codes "on_stop"; is_property = false; is_method = false }
    ∷ record { name = codes "middleware"; is_property = false; is_method = false }
    ∷ record { name = codes "__init__"; is_property = false; is_method = true }
    ∷ record { name = codes "start"; is_property = false; is_method = true }
    ∷ record { name = codes "stop"; is_property = false; is_method = true }
    ∷ []

-- create_component_from(middleware), as `_add_component` calls it: a component named after the function,
-- with both hooks None.
unfoldable pub create_component_from : ℕ → Str → Component
unfolding configure middleware_class_vars
create_component_from ident name =
    configure ((codes "on_start", Value.none_value) ∷ (codes "on_stop", Value.none_value) ∷ [])
      (record {
        ident = ident;
        name = name;
        class_vars = middleware_class_vars;
        settings = [];
        enable = true;
        has_middleware = true;
        start_error = none;
        stop_error = none;
      })

-- What `add` is given: a component, or a function to make one from.
pub data Addable : Type 0 where
  component : Component → Addable
  function : ℕ → Str → Addable

pub to_component : Addable → Component
unfolding create_component_from
to_component (component c) = c
to_component (function ident name) = create_component_from ident name

-- Application._add_component(component, position), also `add`, of positions that are not negative.
unfoldable pub add : Addable → Option ℕ → Application → Application
unfolding to_component insert_at position_or
add added position app =
    let c = to_component added in
    record app {
      components = insert_at (position_or position (length app.components)) c app.components;
      calls = app.calls ++ init c.ident ∷ [];
    }

-- _add_component(component, -(k + 1)): `list.insert` counts a negative position from the end, and stops at the
-- front.
unfoldable pub add_from_end : Addable → ℕ → Application → Application
unfolding to_component insert_at
add_from_end added k app =
    let c = to_component added in
    record app {
      components = insert_at (length app.components - suc k) c app.components;
      calls = app.calls ++ init c.ident ∷ [];
    }

-- Application.components: a copy of the list
abbrev pub components_of : Application → List Component
components_of app = app.components

add_all : List Addable → Application → Application
unfolding add
add_all [] app = app
add_all (added ∷ rest) app = add_all rest (add added none app)

-- Application.__init__
unfoldable pub new_application : List Addable → Application
unfolding add_all
new_application added =
    add_all added (record { components = []; started = false; handler = none; calls = [] })

-- Application.get_component(name)
unfoldable pub get_component : Str → List Component → Option Component
get_component name [] = none
get_component name (c ∷ cs) = if eqb c.name name then some c else get_component name cs

-- Application.__getattr__(item)
unfoldable pub get_attr : Str → Application → Result Component
unfolding get_component
get_attr item app = elim (get_component item app.components) [
  | none ↦ err attribute_error
  | some c ↦ ok c
]

-- The first loop of `start`: the calls so far, and the components to remove or the error that a hook
-- raised, beside the calls that were made. A component that is not enabled is not called.
unfoldable pub start_all :
    List Component → List Call → List Component → Result (List Component) × List Call
start_all [] calls to_remove = (ok to_remove, calls)
start_all (c ∷ cs) calls to_remove =
    let made = if c.enable then calls ++ Call.start c.ident ∷ [] else calls in
    let kept = start_all cs made to_remove in
    let removed = start_all cs made (to_remove ++ c ∷ []) in
    elim (guarded_start c) [
      | none ↦ kept
      | some disable_component ↦ removed
      | some e ↦ (err e, made)
    ]

-- list.remove(c): the first object that is `c`
unfoldable pub remove : Component → List Component → List Component
remove c [] = []
remove c (d ∷ cs) = if d.ident == c.ident then cs else d ∷ remove c cs

remove_all : List Component → List Component → List Component
unfolding remove
remove_all [] cs = cs
remove_all (c ∷ to_remove) cs = remove_all to_remove (remove c cs)

finish_start : Result (List Component) × List Call → Application → Option Error × Application
unfolding remove_all
finish_start (err e, calls) app = (some e, record app { started = true; calls = calls })
finish_start (ok to_remove, calls) app =
    let remaining = remove_all to_remove app.components in
    (
      none,
      record app {
        components = remaining;
        started = true;
        handler = some remaining;
        calls = calls;
      },
    )

-- Application.start(): the error that it raises, if any, and the application after it.
unfoldable pub start_app : Application → Option Error × Application
unfolding start_all finish_start
start_app app =
    if app.started then (none, app) else finish_start (start_all app.components app.calls []) app

-- The loop of `stop`.
stop_all : List Component → List Call → Option Error × List Call
stop_all [] calls = (none, calls)
stop_all (c ∷ cs) calls =
    let made = calls ++ Call.stop c.ident ∷ [] in
    let rest = stop_all cs made in elim c.stop_error [ none ↦ rest | some e ↦ (some e, made) ]

-- Application.stop()
unfoldable pub stop_app : Application → Option Error × Application
unfolding stop_all
stop_app app =
    if app.started
    then (let (e, calls) = stop_all app.components app.calls in (e, record app { calls = calls }))
    else (none, app)

-- A write to the object `target`: every place of the list that holds it shows the write.
unfoldable pub update : Component → (Component → Component) → List Component → List Component
update target f [] = []
update target f (c ∷ cs) = (if c.ident == target.ident then f c else c) ∷ update target f cs

-- The loop of Application.configure(config): the error and the components.
unfoldable pub configure_all : Dict (Dict Value) → List Component → Option Error × List Component
configure_all [] cs = (none, cs)
configure_all ((name, kwargs) ∷ config) cs = elim (get_component name cs) [
  | none ↦ (some value_error, cs)
  | some c ↦ configure_all config (update c (configure kwargs) cs)
]

-- Application.configure(config)
unfoldable pub configure_app : Dict (Dict Value) → Application → Option Error × Application
unfolding configure_all
configure_app config app =
    let (e, cs) = configure_all config app.components in (e, record app { components = cs })
