-- ===== src/Cli.antt =====
-- levin/components/cli.py: which command a call runs, and the text that `components` gives. The text of a
-- setting's value, and argparse, are parameters.
pub mod Options
pub mod Run
pub mod Laws
pub mod Tests
use levin.Prelude.{
  ℕ, zero, suc, Bool, true, false, not, ◌&&◌, ◌||◌, Option, none, some, List, [], ◌∷◌, ◌++◌, map,
  if◌then◌else◌, is_empty,
}
use levin.Bytes.{Str, codes, eqb, join, starts_with}
use levin.Component.{Component, get_configure_params}
use levin.Application.{get_component}

-- What `__call__` does: it prints the help of all components, exits with status 2, prints the help of one
-- component, or gives the rest of the arguments to argparse and runs the command that is named.
pub data Action : Type 0 where
  print_root exit_2 : Action
  print_component_help : Component → Action
  run_command : Component → (name : Str) → (rest : List Str) → Action

run_found : Option Component → List Str → Action
run_found none rest = exit_2
run_found (some c) [] = print_component_help c
run_found (some c) (name ∷ rest) = run_command c name rest

-- Cli._cli_component(argv); `__call__` gives it a list that is not empty
unfoldable pub cli_component : List Component → List Str → Action
unfolding get_component run_found
cli_component cs [] = exit_2
cli_component cs (name ∷ rest) = run_found (get_component name cs) rest

-- len([_ for _ in argv if not _.startswith("-")])
unfoldable pub count_commands : List Str → ℕ
count_commands [] = 0
count_commands (arg ∷ argv) =
    if starts_with (codes "-") arg then count_commands argv else suc (count_commands argv)

after_count : ℕ → List Component → List Str → Action
unfolding cli_component
after_count zero cs argv = print_root
after_count (suc n) cs argv = cli_component cs argv

-- Cli.__call__(argv)
unfoldable pub call : List Component → List Str → Action
unfolding count_commands after_count
call cs argv = after_count (count_commands argv) cs argv

-- [param for param in _component.get_configure_params() if param != "enable"]
unfoldable pub shown_params : List Str → List Str
shown_params [] = []
shown_params (param ∷ params) =
    if eqb param (codes "enable") then shown_params params else param ∷ shown_params params

-- `component and _component.name != component`
unfoldable pub is_left_out : Option Str → Component → Bool
is_left_out none c = false
is_left_out (some name) c = not (is_empty name) && not (eqb c.name name)

abbrev is_given : Option Str → Bool
is_given none = false
is_given (some name) = not (is_empty name)

module _ (show : Component → Str → Str) where
  param_lines : Component → List Str → List Str
  param_lines c [] = []
  param_lines c (param ∷ params) =
      (codes "\t" ++ (param ++ (codes " = " ++ show c param))) ∷ param_lines c params

  params_text : Bool → Component → List Str → Str
  unfolding param_lines
  params_text values c [] = []
  params_text values c (param ∷ params) =
      if values
      then codes ":\n" ++ join (codes "\n ") (param_lines c (param ∷ params))
      else codes ":\t" ++ join (codes ", ") (param ∷ params)

  -- What one round of the loop of `components` adds.
  unfoldable pub component_text : Bool → Component → Str
  unfolding params_text shown_params get_configure_params
  component_text values c =
      (codes "\n" ++ ((if c.enable then codes "✔" else codes "✗") ++ (codes " " ++ c.name)))
      ++ params_text values c (shown_params (get_configure_params c))

  components_from : Str → Bool → Option Str → List Component → Str
  unfolding component_text is_left_out
  components_from text values name [] = text
  components_from text values name (c ∷ cs) =
      if is_left_out name c
      then components_from text values name cs
      else components_from (text ++ component_text (values || is_given name) c) values name cs

  -- Cli.components(values, component)
  unfoldable pub components : Bool → Option Str → List Component → Str
  unfolding components_from
  components values name cs = components_from [] values name cs
