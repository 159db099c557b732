-- ===== src/Application/Config.antt =====
-- levin/core/app.py: `get_component` and `configure`.
use levin.Prelude.{
  ◌≡◌, refl, sym, ap, ap₂, ◌∙◌, Bool, true, false, none, some, List, [], ◌∷◌, ◌++◌, arith, All, ◌≢◌,
  ℕ, ==_refl, if◌then◌else◌, ◌==◌, ◌||◌, Bool-cases, inl, inr,
}
use mathlib.Core.Path.{subst}
use levin.Application.Life.{AreDistinct}
use levin.Bytes.{Str, eqb}
use levin.Bytes.Equality.{eqb_iff}
use levin.Result.{value_error}
use levin.Dict.{Dict}
use levin.Common.{Value}
use levin.Component.{Component, configure}
use levin.Component.Laws.{configure_lem}
use levin.Application.{Application, get_component, update, configure_all, configure_app}

abbrev names : List Component → List Str
names [] = []
names (c ∷ cs) = c.name ∷ names cs

abbrev pub is_named : Str → List Component → Bool
is_named name [] = false
is_named name (c ∷ cs) = eqb c.name name || is_named name cs

abbrev in_names : Str → List Str → Bool
in_names n [] = false
in_names n (m ∷ ms) = eqb m n || in_names n ms

is_named-names : (n : Str) (cs : List Component) → is_named n cs ≡ in_names n (names cs)
is_named-names n [] = refl
is_named-names n (c ∷ cs) = ap (λ b. eqb c.name n || b) (is_named-names n cs)

get_component_absent :
    (n : Str) (cs : List Component) → is_named n cs ≡ false → get_component n cs ≡ none
unfolding get_component
get_component_absent n [] h = refl
get_component_absent n (c ∷ cs) h = ground (arith, get_component_absent n cs)

get_component_present :
    (n : Str) (cs : List Component)
    → is_named n cs ≡ true
    → (c : Component) × (get_component n cs ≡ some c)
unfolding get_component
get_component_present n [] h = cc
get_component_present n (c ∷ cs) h = elim (Bool-cases (eqb c.name n)) [
  | inl e ↦ (c, rw e)
  | inr e ↦ rw e (get_component_present n cs (rw e at h))
]

names-update :
    (target : Component) (kwargs : Dict Value) (cs : List Component)
    → names (update target (configure kwargs) cs) ≡ names cs
unfolding update
names-update target kwargs [] = refl
names-update target kwargs (c ∷ cs) = elim (Bool-cases (c.ident == target.ident)) [
  | inl e ↦ rw e (ap₂ (λ a b. a ∷ b) (configure_lem [] kwargs c).2 (names-update target kwargs cs))
  | inr e ↦ rw e (ap (λ b. c.name ∷ b) (names-update target kwargs cs))
]

is_named-update :
    (n : Str) (target : Component) (kwargs : Dict Value) (cs : List Component)
    → is_named n (update target (configure kwargs) cs) ≡ is_named n cs
is_named-update n target kwargs cs =
    is_named-names n (update target (configure kwargs) cs)
    ∙ ap (in_names n) (names-update target kwargs cs)
    ∙ sym (is_named-names n cs)

-- Every name of the configuration is a component's.
abbrev pub AreKnown : Dict (Dict Value) → List Component → Type 0
AreKnown config cs = All (λ (entry : Str × Dict Value). is_named entry.0 cs ≡ true) config

AreKnown-update :
    (config : Dict (Dict Value)) (target : Component) (kwargs : Dict Value) (cs : List Component)
    → AreKnown config cs
    → AreKnown config (update target (configure kwargs) cs)
AreKnown-update [] target kwargs cs h = tt
AreKnown-update (entry ∷ config) target kwargs cs (h, hs) =
    (is_named-update entry.0 target kwargs cs ∙ h, AreKnown-update config target kwargs cs hs)

configure_all-append :
    (known more : Dict (Dict Value)) (cs : List Component)
    → AreKnown known cs
    → configure_all (known ++ more) cs ≡ configure_all more (configure_all known cs).1
unfolding configure_all
configure_all-append [] more cs h = refl
configure_all-append ((name, kwargs) ∷ known) more cs (h, hs) =
    let (c, found) = get_component_present name cs h in
    rw (found, configure_all)
      (configure_all-append known more (update c (configure kwargs) cs)
        (AreKnown-update known c kwargs cs hs))

configure_all-known :
    (config : Dict (Dict Value)) (cs : List Component)
    → AreKnown config cs
    → ((configure_all config cs).0 ≡ none)
      × ((n : Str) → is_named n (configure_all config cs).1 ≡ is_named n cs)
unfolding configure_all
configure_all-known [] cs h = (refl, λ n. refl)
configure_all-known ((name, kwargs) ∷ config) cs (h, hs) =
    let (c, found) = get_component_present name cs h in
    let (done, named) =
      configure_all-known config (update c (configure kwargs) cs)
        (AreKnown-update config c kwargs cs hs) in
    rw (found, configure_all) (done, λ n. named n ∙ is_named-update n c kwargs cs)

-- The first component of the name is configured, and no other is changed.
abbrev pub configured_first : Str → Dict Value → List Component → List Component
configured_first name kwargs [] = []
configured_first name kwargs (c ∷ cs) =
    if eqb c.name name then configure kwargs c ∷ cs else c ∷ configured_first name kwargs cs

-- The entries of a configuration, one after the other.
abbrev pub configured : Dict (Dict Value) → List Component → List Component
configured [] cs = cs
configured ((name, kwargs) ∷ config) cs = configured config (configured_first name kwargs cs)

update_absent :
    (target : Component) (f : Component → Component) (cs : List Component)
    → All (λ d. d.ident ≢ target.ident) cs
    → update target f cs ≡ cs
unfolding update
update_absent target f [] h = refl
update_absent target f (d ∷ cs) (h, hs) =
    let other : (d.ident == target.ident) ≡ false = ground (arith, h) in
    rw other (ap (λ l. d ∷ l) (update_absent target f cs hs))

found_ident :
    (n : ℕ) (name : Str) (cs : List Component) (c : Component)
    → All (λ d. d.ident ≢ n) cs
    → get_component name cs ≡ some c
    → c.ident ≢ n
unfolding get_component
found_ident n name [] c h e = cc e
found_ident n name (d ∷ cs) c (h, hs) e = elim (Bool-cases (eqb d.name name)) [
  | inl k ↦ let same : d ≡ c = cc (rw k at e) in subst (λ (x : Component). x.ident ≢ n) same h
  | inr k ↦ found_ident n name cs c hs (rw k at e)
]

update-configured_first :
    (name : Str) (kwargs : Dict Value) (cs : List Component) (c : Component)
    → AreDistinct cs
    → get_component name cs ≡ some c
    → update c (configure kwargs) cs ≡ configured_first name kwargs cs
unfolding update get_component
update-configured_first name kwargs [] c d e = cc e
update-configured_first name kwargs (x ∷ cs) c (apart, d) e = elim (Bool-cases (eqb x.name name)) [
  | inl k ↦
      let same : x ≡ c = cc (rw k at e) in
      rw k (
        subst (λ (y : Component). update y (configure kwargs) (x ∷ cs) ≡ configure kwargs x ∷ cs)
          same
          (rw (==_refl x.ident)
            (ap (λ l. configure kwargs x ∷ l) (update_absent x (configure kwargs) cs apart))))
  | inr k ↦
      let other : (x.ident == c.ident) ≡ false =
        ground (arith, found_ident x.ident name cs c apart (rw k at e)) in
      rw (k, other) (ap (λ l. x ∷ l) (update-configured_first name kwargs cs c d (rw k at e)))
]

apart-update :
    (n : ℕ) (target : Component) (kwargs : Dict Value) (cs : List Component)
    → All (λ d. d.ident ≢ n) cs
    → All (λ d. d.ident ≢ n) (update target (configure kwargs) cs)
unfolding update
apart-update n target kwargs [] h = tt
apart-update n target kwargs (d ∷ cs) (h, hs) = elim (Bool-cases (d.ident == target.ident)) [
  | inl e ↦ rw e (rw (configure_lem [] kwargs d).3 h, apart-update n target kwargs cs hs)
  | inr e ↦ rw e (h, apart-update n target kwargs cs hs)
]

update-AreDistinct :
    (target : Component) (kwargs : Dict Value) (cs : List Component)
    → AreDistinct cs
    → AreDistinct (update target (configure kwargs) cs)
unfolding update
update-AreDistinct target kwargs [] h = tt
update-AreDistinct target kwargs (d ∷ cs) (h, hs) = elim (Bool-cases (d.ident == target.ident)) [
  | inl e ↦ rw e (
    rw (configure_lem [] kwargs d).3 (apart-update d.ident target kwargs cs h),
    update-AreDistinct target kwargs cs hs,
  )
  | inr e ↦ rw e (apart-update d.ident target kwargs cs h, update-AreDistinct target kwargs cs hs)
]

configure_all-configured :
    (config : Dict (Dict Value)) (cs : List Component)
    → AreDistinct cs
    → AreKnown config cs
    → (configure_all config cs).1 ≡ configured config cs
unfolding configure_all
configure_all-configured [] cs d h = refl
configure_all-configured ((name, kwargs) ∷ config) cs d (h, hs) =
    let (c, found) = get_component_present name cs h in
    rw (found, configure_all)
      (configure_all-configured config (update c (configure kwargs) cs)
          (update-AreDistinct c kwargs cs d) (AreKnown-update config c kwargs cs hs)
        ∙ ap (configured config) (update-configured_first name kwargs cs c d found))

-- A configuration that names only components of the application, in whose list no object stands twice, is
-- applied with no error: for each entry, in order, the first component of the name gets the entry's settings
-- by its `configure`, and no other component changes. At the first name that is no component's ValueError is
-- raised: what stands before it has been applied so, and what stands behind it is not.
pub configure_app_lem :
    (app : Application) (known after : Dict (Dict Value)) (name : Str) (kwargs : Dict Value)
    → AreDistinct app.components
    → AreKnown known app.components
    → is_named name app.components ≡ false
    → let done = record app { components = configured known app.components } in
      (configure_app known app ≡ (none, done))
      × (configure_app (known ++ (name, kwargs) ∷ after) app ≡ (some value_error, done))
unfolding configure_app configure_all
configure_app_lem app known after name kwargs d h unknown =
    let cs = app.components in
    let (done, named) = configure_all-known known cs h in
    let applied = configure_all-configured known cs d h in
    let absent : get_component name (configure_all known cs).1 ≡ none =
      get_component_absent name (configure_all known cs).1 (named name ∙ unknown) in
    (
      ap₂ (λ e l. (e, record app { components = l })) done applied,
      rw (configure_all-append known ((name, kwargs) ∷ after) cs h) (
          rw (absent, configure_all)
            (ap (λ l. (some value_error, record app { components = l })) applied)),
    )

-- `get_component` finds the first component of the name, and nothing where no component has it.
pub get_component_lem :
    (name : Str) (before after : List Component) (c : Component)
    → is_named name before ≡ false
    → c.name ≡ name
    → (get_component name before ≡ none) × (get_component name (before ++ c ∷ after) ≡ some c)
unfolding get_component
get_component_lem name [] after c h e = (refl, ground (arith, eqb_iff c.name name))
get_component_lem name (b ∷ before) after c h e =
    let (none_there, first) = get_component_lem name before after c (ground arith) e in
    (ground arith, ground arith)
