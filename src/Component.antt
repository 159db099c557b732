-- ===== src/Component.antt =====
-- levin/core/component.py. A component is an object of a subclass of `Component`: its class's
-- variables with what Python reflects of them, its own settings, and the hooks that the application
-- calls. A hook's effect outside the component enters as the error that it raises, if any.
pub mod Laws
pub mod Tests
use levin.Prelude.{
  ℕ, Bool, true, false, not, ◌||◌, Option, none, some, List, [], ◌∷◌, ◌++◌, ◌==◌, if◌then◌else◌,
}
use levin.Bytes.{Str, codes, eqb, starts_with}
use levin.Result.{Error, Result, ok, err, disable_component}
use levin.Dict.{Dict, lookup, put}
use levin.Common.{Value}

-- An entry of `vars(self.__class__)`.
pub record ClassVar : Type 0 where
  pub name : Str
  pub is_property : Bool
  pub is_method : Bool

-- `ident` tells objects apart: `list.remove` compares by identity here.
pub record Component : Type 0 where
  pub ident : ℕ
  pub name : Str
  pub class_vars : List ClassVar
  pub settings : Dict Value
  pub enable : Bool
  pub has_middleware : Bool
  pub start_error : Option Error
  pub stop_error : Option Error

-- The test of the loop in `get_configure_params` that skips a class variable.
unfoldable pub is_skipped : ClassVar → Bool
is_skipped param =
    (starts_with (codes "_") param.name
      || (eqb param.name (codes "name") || eqb param.name (codes "middleware")))
    || (param.is_property || param.is_method)

class_params : List ClassVar → List Str
unfolding is_skipped
class_params [] = []
class_params (param ∷ params) =
    if is_skipped param then class_params params else param.name ∷ class_params params

-- Component.get_configure_params: the names that the generator yields.
unfoldable pub get_configure_params : Component → List Str
unfolding class_params
get_configure_params c = class_params c.class_vars ++ codes "enable" ∷ []

-- bool(value) of the setting `enable`
abbrev pub truthy : Value → Bool
truthy Value.none_value = false
truthy (Value.bool b) = b
truthy (Value.int n) = not (n == 0)
truthy (Value.str []) = false
truthy (Value.bytes []) = false
truthy (Value.push_list []) = false
truthy (Value.query []) = false
truthy other = true

-- setattr(self, param, value): `enable` is a field of the record, any other name is in `settings`.
unfoldable pub set_param : Str → Value → Component → Component
set_param param v c =
    if eqb param (codes "enable")
    then record c { enable = truthy v }
    else record c { settings = put param v c.settings }

set_given : Str → Option Value → Component → Component
unfolding set_param
set_given param none c = c
set_given param (some v) c = set_param param v c

configure_params : List Str → Dict Value → Component → Component
unfolding set_given
configure_params [] kwargs c = c
configure_params (param ∷ params) kwargs c =
    configure_params params kwargs (set_given param (lookup param kwargs) c)

-- Component.configure(**kwargs)
unfoldable pub configure : Dict Value → Component → Component
unfolding configure_params get_configure_params
configure kwargs c = configure_params (get_configure_params c) kwargs c

-- Component._start(app): whether it raises, and what.
unfoldable pub guarded_start : Component → Option Error
guarded_start c = if c.enable then c.start_error else some disable_component
