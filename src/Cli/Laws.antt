-- ===== src/Cli/Laws.antt =====
-- levin/components/cli.py: the filter of `components`.
use levin.Prelude.{
  ◌≡◌, refl, sym, ap, ◌∙◌, Bool, true, false, ◌||◌, some, List, [], ◌∷◌, ◌++◌, All, is_empty,
  append-nil,
}
use levin.Bytes.{Str, eqb}
use levin.Bytes.Equality.{eqb_refl}
use levin.Component.{Component}
use levin.Application.{get_component}
use levin.Cli.{component_text, components_from, components, is_left_out}

-- A component of another name.
abbrev pub IsNamedOther : Str → Component → Type 0
IsNamedOther name c = eqb c.name name ≡ false

module _ (show : Component → Str → Str) (values : Bool) (name : Str)
    (given : is_empty name ≡ false) where
  skip_others :
      (text : Str) (cs rest : List Component)
      → All (IsNamedOther name) cs
      → components_from show text values (some name) (cs ++ rest)
        ≡ components_from show text values (some name) rest
  unfolding components_from is_left_out
  skip_others text [] rest h = refl
  skip_others text (c ∷ cs) rest h = rw (given, h.0) (skip_others text cs rest h.1)

  keep_one :
      (text : Str) (c : Component) (rest : List Component)
      → eqb c.name name ≡ true
      → components_from show text values (some name) (c ∷ rest)
        ≡ components_from show
            (text ++ component_text show (values || true) c)
            values
            (some name)
            rest
  unfolding components_from is_left_out
  keep_one text c rest h = rw (given, h)

or_true : (b : Bool) → (b || true) ≡ true
or_true true = refl
or_true false = refl

get_component_others :
    (name : Str) (before : List Component) (c : Component) (after : List Component)
    → All (IsNamedOther name) before
    → eqb c.name name ≡ true
    → get_component name (before ++ c ∷ after) ≡ some c
unfolding get_component
get_component_others name [] c after h e = rw e
get_component_others name (d ∷ before) c after h e =
    rw h.0 (get_component_others name before c after h.1 e)

-- Asked about one component, whose name is not empty and which no other component has, `components` gives
-- the text of that component alone, with its settings' values whether or not they are asked for; it is
-- the component that `get_component` finds.
pub components_named :
    (show : Component → Str → Str) (values : Bool) (before : List Component) (c : Component)
    (after : List Component)
    → is_empty c.name ≡ false
    → All (IsNamedOther c.name) before
    → All (IsNamedOther c.name) after
    → (components show values (some c.name) (before ++ c ∷ after) ≡ component_text show true c)
      × (get_component c.name (before ++ c ∷ after) ≡ some c)
unfolding components components_from
components_named show values before c after g h k = (
  skip_others show values c.name g [] before (c ∷ after) h
      ∙ keep_one show values c.name g [] c after (eqb_refl c.name)
      ∙ ap (components_from show _ values (some c.name)) (sym (append-nil after))
      ∙ skip_others show values c.name g _ after [] k
      ∙ ap (λ v. component_text show v c) (or_true values),
  get_component_others c.name before c after h (eqb_refl c.name),
)
