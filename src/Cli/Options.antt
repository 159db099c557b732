-- ===== src/Cli/Options.antt =====
-- levin/components/cli.py: the commands of a component and the options that a command's signature gives. A
-- default value, and a class other than bool, is a number.
pub mod Signature
use levin.Prelude.{ℕ, Bool, true, false, Option, none, some, List, [], ◌∷◌, ◌++◌, if◌then◌else◌}
use levin.Bytes.{Str, codes, eqb}
use levin.Result.{Error, type_error}

-- What `issubclass(_type, bool)` is asked of; it raises TypeError where that is no class.
pub data TypeArg : Type 0 where
  bool_class no_class : TypeArg
  other_class : ℕ → TypeArg

-- An annotation: none, a class, one with `__args__`, by the first of them, or any other object.
pub data Annotation : Type 0 where
  empty opaque : Annotation
  class_of generic : TypeArg → Annotation

pub record Param : Type 0 where
  pub name : Str
  pub annotation : Annotation
  pub default : Option ℕ

-- What is given to `add_argument`: a flag is stored as true where it is given; an argument with a default
-- may be left out. A flag whose parameter has no default has `param.empty` for its default.
pub data Argument : Type 0 where
  flag : Str → Option ℕ → Argument
  optional : Str → (default : ℕ) → TypeArg → Argument
  required : Str → TypeArg → Argument

-- _get_for_type(_type, param): what the generator yields, and what it raises.
unfoldable pub get_for_type : TypeArg → Param → List Argument × Option Error
get_for_type no_class p = ([], some type_error)
get_for_type bool_class p = (flag p.name p.default ∷ [], none)
get_for_type (other_class n) p = elim p.default [
  | some v ↦ (optional p.name v (other_class n) ∷ [], none)
  | none ↦ (required p.name (other_class n) ∷ [], none)
]

-- One round of the loop of `_get_command_options`.
options_of : Annotation → Param → List Argument × Option Error
unfolding get_for_type
options_of empty p = ([], none)
options_of opaque p = ([], none)
options_of (class_of t) p = get_for_type t p
options_of (generic t) p = get_for_type t p

and_rest :
    List Argument × Option Error → List Argument × Option Error → List Argument × Option Error
and_rest (options, some e) rest = (options, some e)
and_rest (options, none) rest = (options ++ rest.0, rest.1)

-- _get_command_options(command_func)
unfoldable pub get_command_options : List Param → List Argument × Option Error
unfolding options_of and_rest
get_command_options [] = ([], none)
get_command_options (p ∷ params) = and_rest (options_of p.annotation p) (get_command_options params)

-- A bound method of a component, as `inspect.getmembers` lists them.
pub record Method : Type 0 where
  pub name : Str
  pub is_command : Bool
  pub params : List Param

-- _get_commands(component)
unfoldable pub get_commands : List Method → List Method
get_commands [] = []
get_commands (m ∷ methods) = if m.is_command then m ∷ get_commands methods else get_commands methods

-- _get_command(component, command_name)
unfoldable pub find_command : Str → List Method → Option Method
find_command name [] = none
find_command name (m ∷ commands) = if eqb m.name name then some m else find_command name commands

abbrev pub get_command : List Method → Str → Option Method
unfolding get_commands find_command
get_command methods name = find_command name (get_commands methods)

-- A sub-parser: the command's name and what was added to it.
abbrev pub Subparser : Type 0
Subparser = Str × List Argument

-- _add_command_argument(command_, subparsers)
unfoldable pub add_command_argument : Method → Subparser × Option Error
unfolding get_command_options
add_command_argument m = let (options, e) = get_command_options m.params in ((m.name, options), e)

and_subparsers :
    Subparser × Option Error → List Subparser × Option Error → List Subparser × Option Error
and_subparsers (s, some e) rest = (s ∷ [], some e)
and_subparsers (s, none) rest = (s ∷ rest.0, rest.1)

add_all : List Method → List Subparser × Option Error
unfolding add_command_argument and_subparsers
add_all [] = ([], none)
add_all (m ∷ commands) = and_subparsers (add_command_argument m) (add_all commands)

-- _get_parser_for_component(component, prog)
unfoldable pub get_parser_for_component : List Method → List Subparser × Option Error
unfolding add_all get_commands
get_parser_for_component methods = add_all (get_commands methods)
