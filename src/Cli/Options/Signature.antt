-- ===== src/Cli/Options/Signature.antt =====
-- levin/components/cli.py: the options of a command against its signature.
use levin.Prelude.{
  ℕ, ◌≡◌, refl, ap, ◌∙◌, Bool, true, false, not, ◌&&◌, Option, none, some, List, [], ◌∷◌, map, All,
  if◌then◌else◌,
}
use levin.Bytes.{Str}
use levin.Result.{Error}
use levin.Cli.Options.{
  bool_class, no_class, other_class, Annotation, empty, opaque, class_of, generic, Param, Argument,
  flag, optional, required, get_for_type, options_of, and_rest, get_command_options,
}

-- An annotation that names no class, or a class.
abbrev pub IsPlain : Annotation → Type 0
IsPlain (class_of no_class) = ⊥
IsPlain (generic no_class) = ⊥
IsPlain _ = Unit

abbrev pub name_of : Argument → Str
name_of (flag name default) = name
name_of (optional name default t) = name
name_of (required name t) = name

abbrev is_required : Argument → Bool
is_required (required name t) = true
is_required _ = false

abbrev pub required_names : List Argument → List Str
required_names [] = []
required_names (a ∷ options) =
    if is_required a then name_of a ∷ required_names options else required_names options

abbrev is_annotated : Annotation → Bool
is_annotated (class_of t) = true
is_annotated (generic t) = true
is_annotated _ = false

abbrev is_bool : Annotation → Bool
is_bool (class_of bool_class) = true
is_bool (generic bool_class) = true
is_bool _ = false

abbrev is_none : Option ℕ → Bool
is_none none = true
is_none (some v) = false

abbrev names_where : (Param → Bool) → List Param → List Str
names_where test [] = []
names_where test (p ∷ params) =
    let rest = names_where test params in if test p then p.name ∷ rest else rest

-- The parameters that have a class, and those of them that are no bool and have no default.
abbrev pub annotated_names : List Param → List Str
annotated_names params = names_where (λ p. is_annotated p.annotation) params

abbrev pub needed_names : List Param → List Str
needed_names params =
    names_where
      (λ p. is_annotated p.annotation && (not (is_bool p.annotation) && is_none p.default)) params

-- The options of one parameter, before those of the others.
option_lem :
    (p : Param) (annotation : Annotation) (default : Option ℕ) (rest : List Argument × Option Error)
    → IsPlain annotation
    → (map name_of (and_rest (options_of annotation (record p { default = default })) rest).0
        ≡ (if is_annotated annotation then p.name ∷ map name_of rest.0 else map name_of rest.0))
      × (required_names (and_rest (options_of annotation (record p { default = default })) rest).0
          ≡ (if is_annotated annotation && (not (is_bool annotation) && is_none default)
              then p.name ∷ required_names rest.0
              else required_names rest.0))
      × ((and_rest (options_of annotation (record p { default = default })) rest).1 ≡ rest.1)
unfolding options_of and_rest get_for_type
option_lem p empty default rest h = (refl, refl, refl)
option_lem p opaque default rest h = (refl, refl, refl)
option_lem p (class_of bool_class) default rest h = (refl, refl, refl)
option_lem p (class_of no_class) default rest h = absurd h
option_lem p (class_of (other_class n)) none rest h = (refl, refl, refl)
option_lem p (class_of (other_class n)) (some v) rest h = (refl, refl, refl)
option_lem p (generic bool_class) default rest h = (refl, refl, refl)
option_lem p (generic no_class) default rest h = absurd h
option_lem p (generic (other_class n)) none rest h = (refl, refl, refl)
option_lem p (generic (other_class n)) (some v) rest h = (refl, refl, refl)

-- A command whose annotations are classes, or hold one, has an option for each of its annotated parameters, in
-- the order of the signature, and none for the others; the options that must be given are those of the
-- parameters that are no bool and have no default; nothing is raised.
pub get_command_options_lem :
    (params : List Param)
    → All (λ p. IsPlain p.annotation) params
    → (map name_of (get_command_options params).0 ≡ annotated_names params)
      × (required_names (get_command_options params).0 ≡ needed_names params)
      × ((get_command_options params).1 ≡ none)
unfolding get_command_options
get_command_options_lem [] h = (refl, refl, refl)
get_command_options_lem (p ∷ params) h =
    let (names, needed, raised) = get_command_options_lem params h.1 in
    let (a, b, c) = option_lem p p.annotation p.default (get_command_options params) h.0 in
    (
      a ∙ ap (λ (l : List Str). if is_annotated p.annotation then p.name ∷ l else l) names,
      b
          ∙ ap
              (λ (l : List Str).
                if is_annotated p.annotation && (not (is_bool p.annotation) && is_none p.default)
                then p.name ∷ l
                else l)
              needed,
      c ∙ raised,
    )
