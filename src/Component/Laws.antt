-- ===== src/Component/Laws.antt =====
-- levin/core/component.py: what `configure` changes.
use levin.Prelude.{
  ◌≡◌, refl, Bool, true, false, not, ◌&&◌, ◌||◌, Option, none, some, List, [], ◌∷◌, ◌++◌, arith,
  if◌then◌else◌, ap, Bool-cases, inl, inr, ◌∙◌,
}
use levin.Bytes.{Str, codes, eqb, starts_with}
use levin.Bytes.Equality.{eqb_iff, eqb_refl}
use levin.Dict.{Dict, lookup}
use levin.Dict.Laws.{lookup-put}
use levin.Common.{Value}
use levin.Component.{
  Component, ClassVar, is_skipped, class_params, truthy, set_param, set_given, configure_params,
  configure, get_configure_params,
}

-- A name among the configurable ones.
abbrev pub listed : Str → List Str → Bool
listed j [] = false
listed j (param ∷ params) = eqb param j || listed j params

-- The value given, or else the one before.
abbrev pub given_or {ℓ} : {A : Type ℓ} → Option A → Option A → Option A
given_or none before = before
given_or (some v) before = some v

abbrev pub enabled_or : Option Value → Bool → Bool
enabled_or none before = before
enabled_or (some v) before = truthy v

abbrev enable_name : Str
enable_name = codes "enable"

set_given-settings :
    (j param : Str) (o : Option Value) (c : Component)
    → lookup j (set_given param o c).settings ≡ (
        if eqb param j && not (eqb j enable_name)
        then given_or o (lookup j c.settings)
        else lookup j c.settings)
unfolding set_given set_param
set_given-settings j param none c = ground arith
set_given-settings j param (some v) c = ground (
  arith,
  lookup-put param j v c.settings,
  eqb_iff param j,
  eqb_iff param enable_name,
  eqb_iff j enable_name,
)

set_given-enable :
    (param : Str) (o : Option Value) (c : Component)
    → (set_given param o c).enable
      ≡ (if eqb param enable_name then enabled_or o c.enable else c.enable)
unfolding set_given set_param
set_given-enable param none c = ground arith
set_given-enable param (some v) c = ground arith

configure_params-settings :
    (j : Str) (params : List Str) (kwargs : Dict Value) (c : Component)
    → lookup j (configure_params params kwargs c).settings ≡ (
        if listed j params && not (eqb j enable_name)
        then given_or (lookup j kwargs) (lookup j c.settings)
        else lookup j c.settings)
unfolding configure_params
configure_params-settings j [] kwargs c = refl
configure_params-settings j (param ∷ params) kwargs c = ground (
  arith,
  configure_params-settings j params kwargs (set_given param (lookup param kwargs) c),
  set_given-settings j param (lookup param kwargs) c,
  eqb_iff param j,
)

configure_params-enable :
    (params : List Str) (kwargs : Dict Value) (c : Component)
    → (configure_params params kwargs c).enable ≡ (
        if listed enable_name params
        then enabled_or (lookup enable_name kwargs) c.enable
        else c.enable)
unfolding configure_params
configure_params-enable [] kwargs c = refl
configure_params-enable (param ∷ params) kwargs c = ground (
  arith,
  configure_params-enable params kwargs (set_given param (lookup param kwargs) c),
  set_given-enable param (lookup param kwargs) c,
  eqb_iff param enable_name,
)

listed_last : (j : Str) (params : List Str) → listed j (params ++ j ∷ []) ≡ true
listed_last j [] = rw (eqb_refl j)
listed_last j (param ∷ params) = ground (arith, listed_last j params)

set_given-fixed :
    (param : Str) (o : Option Value) (c : Component)
    → ((set_given param o c).name ≡ c.name)
      × ((set_given param o c).ident ≡ c.ident)
      × ((set_given param o c).class_vars ≡ c.class_vars)
unfolding set_given set_param
set_given-fixed param none c = (refl, refl, refl)
set_given-fixed param (some v) c = ground arith

configure_params-fixed :
    (params : List Str) (kwargs : Dict Value) (c : Component)
    → ((configure_params params kwargs c).name ≡ c.name)
      × ((configure_params params kwargs c).ident ≡ c.ident)
      × ((configure_params params kwargs c).class_vars ≡ c.class_vars)
unfolding configure_params
configure_params-fixed [] kwargs c = (refl, refl, refl)
configure_params-fixed (param ∷ params) kwargs c =
    let o = lookup param kwargs in
    let (a, b, d) = configure_params-fixed params kwargs (set_given param o c) in
    let (a', b', d') = set_given-fixed param o c in (a ∙ a', b ∙ b', d ∙ d')

-- `configure` sets exactly the configurable names that it is given: any other setting, one that the
-- class does not declare included, is as before. `enable` becomes the truth of what it is given. The
-- name, the identity and the class of the component do not change.
pub configure_lem :
    (j : Str) (kwargs : Dict Value) (c : Component)
    → (lookup j (configure kwargs c).settings ≡ (
        if listed j (get_configure_params c) && not (eqb j (codes "enable"))
        then given_or (lookup j kwargs) (lookup j c.settings)
        else lookup j c.settings))
      × ((configure kwargs c).enable ≡ enabled_or (lookup (codes "enable") kwargs) c.enable)
      × ((configure kwargs c).name ≡ c.name)
      × ((configure kwargs c).ident ≡ c.ident)
      × ((configure kwargs c).class_vars ≡ c.class_vars)
unfolding configure get_configure_params
configure_lem j kwargs c =
    let params = get_configure_params c in
    let (same_name, same_ident, same_class) = configure_params-fixed params kwargs c in
    (
      configure_params-settings j params kwargs c,
      configure_params-enable params kwargs c
          ∙ rw (listed_last enable_name (class_params c.class_vars)),
      same_name,
      same_ident,
      same_class,
    )

abbrev pub is_reserved : Str → Bool
is_reserved j = starts_with (codes "_") j || (eqb j (codes "name") || eqb j (codes "middleware"))

enable_not_reserved : is_reserved enable_name ≡ false
unfolding starts_with
enable_not_reserved = refl

enable-ne-reserved : (j : Str) → is_reserved j ≡ true → eqb enable_name j ≡ false
enable-ne-reserved j h = elim (Bool-cases (eqb enable_name j)) [
  | inl e ↦ cc (enable_not_reserved, ap is_reserved ((eqb_iff enable_name j).0 e))
  | inr e ↦ e
]

is_skipped_of_reserved :
    (v : ClassVar) (j : Str) → is_reserved j ≡ true → v.name ≡ j → is_skipped v ≡ true
unfolding is_skipped
is_skipped_of_reserved v j h e = rw (e, h)

reserved_not_listed :
    (j : Str) (vars : List ClassVar)
    → is_reserved j ≡ true
    → listed j (class_params vars ++ enable_name ∷ []) ≡ false
unfolding class_params
reserved_not_listed j [] h = rw (enable-ne-reserved j h)
reserved_not_listed j (v ∷ vars) h =
    ground (arith, reserved_not_listed j vars h, is_skipped_of_reserved v j h, eqb_iff v.name j)

-- The names that `configure` never sets, whatever the class declares: `name`, `middleware`, and those
-- that begin with "_".
pub get_configure_params_reserved :
    (j : Str) (c : Component) → is_reserved j ≡ true → listed j (get_configure_params c) ≡ false
unfolding get_configure_params
get_configure_params_reserved j c h = reserved_not_listed j c.class_vars h
