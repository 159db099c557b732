-- ===== src/Cli/Tests.antt =====
-- Two components, one of them asked about.
use levin.Prelude.{List, some, ◌≡◌, refl, true, false, none, [], ◌∷◌}
use levin.Bytes.{Str, codes, join, starts_with}
use levin.Component.{Component, get_configure_params, is_skipped}
use levin.Application.{get_component}
use levin.Cli.{components, component_text, shown_params, call, count_commands, exit_2, is_left_out}
use levin.Cli.Options.{
  bool_class, other_class, class_of, generic, Param, flag, optional, get_parser_for_component,
}

abbrev named : Str → Component
named name = record {
  ident = 1;
  name = name;
  class_vars = record { name = codes "size"; is_property = false; is_method = false } ∷ [];
  settings = [];
  enable = true;
  has_middleware = false;
  start_error = none;
  stop_error = none;
}

abbrev shown : Component → Str → Str
shown c param = codes "3"

components_text :
    components shown false none (named (codes "a") ∷ named (codes "b") ∷ [])
    ≡ codes "\n✔ a:\tsize\n✔ b:\tsize"
unfolding components component_text shown_params get_configure_params is_left_out is_skipped
    starts_with join
components_text = refl

-- With an option in front, the option is taken for the component's name.
option_first : call (named (codes "a") ∷ []) (codes "-v" ∷ codes "a" ∷ []) ≡ exit_2
unfolding call count_commands get_component starts_with
option_first = refl

-- def components(self, values: bool = False, component: Optional[str] = None)
abbrev components_params : List Param
components_params =
    record { name = codes "values"; annotation = class_of bool_class; default = some 0 }
    ∷ record { name = codes "component"; annotation = generic (other_class 1); default = some 2 }
    ∷ []

components_parser :
    get_parser_for_component (
      record { name = codes "components"; is_command = true; params = components_params }
      ∷ record { name = codes "init"; is_command = false; params = [] }
      ∷ [])
    ≡ (
      (
        codes "components",
        flag (codes "values") (some 0) ∷ optional (codes "component") 2 (other_class 1) ∷ [],
      )
          ∷ [],
      none,
    )
unfolding get_parser_for_component
components_parser = refl
