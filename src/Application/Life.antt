-- ===== src/Application/Life.antt =====
-- levin/core/app.py: `start`, `stop` and `add`.
use levin.Prelude.{
  ℕ, zero, suc, ◌≡◌, ◌≢◌, ◌⊎◌, refl, sym, ap, ap₂, ◌∙◌, ◌-◌, Bool, true, false, none, some, List,
  [], ◌∷◌, ◌++◌, append_assoc, append-nil, arith, All, take, drop, length, length-append, ==_iff,
  ==_refl, Bool-cases, if◌then◌else◌, inl, inr,
}
use levin.Result.{Error, ok, err, disable_component}
use levin.Component.{Component, guarded_start}
use levin.Application.{
  Application, Call, Addable, start_all, remove, remove_all, finish_start, start_app, add,
  insert_at, to_component, add_from_end,
}

-- No object stands twice in the list.
abbrev pub AreDistinct : List Component → Type 0
AreDistinct [] = Unit
AreDistinct (c ∷ cs) = All (λ d. d.ident ≢ c.ident) cs × AreDistinct cs

-- The component starts, or asks to be left out.
abbrev pub Starts : Component → Type 0
Starts c = (guarded_start c ≡ none) ⊎ (guarded_start c ≡ some disable_component)

abbrev pub is_active : Component → Bool
is_active c = elim (guarded_start c) [ none ↦ true | some e ↦ false ]

abbrev pub active : List Component → List Component
active [] = []
active (c ∷ cs) = if is_active c then c ∷ active cs else active cs

abbrev inactive : List Component → List Component
inactive [] = []
inactive (c ∷ cs) = if is_active c then inactive cs else c ∷ inactive cs

-- The `start` hooks that run: one for each enabled component, in order.
abbrev pub start_calls : List Component → List Call
start_calls [] = []
start_calls (c ∷ cs) = if c.enable then Call.start c.ident ∷ start_calls cs else start_calls cs

abbrev made : Component → List Call → List Call
made c calls = if c.enable then calls ++ Call.start c.ident ∷ [] else calls

made-start_calls :
    (c : Component) (cs : List Component) (calls : List Call)
    → made c calls ++ start_calls cs ≡ calls ++ start_calls (c ∷ cs)
made-start_calls c cs calls = elim (Bool-cases c.enable) [
  | inl e ↦ rw e (append_assoc calls (Call.start c.ident ∷ []) (start_calls cs))
  | inr e ↦ rw e
]

inactive-started :
    (c : Component) (cs : List Component) → guarded_start c ≡ none → inactive (c ∷ cs) ≡ inactive cs
inactive-started c cs e = ground arith

inactive-disabled :
    (c : Component) (cs : List Component)
    → guarded_start c ≡ some disable_component
    → inactive (c ∷ cs) ≡ c ∷ inactive cs
inactive-disabled c cs e = ground arith

start_all_lem :
    (cs rest : List Component) (calls : List Call) (to_remove : List Component)
    → All Starts cs
    → start_all (cs ++ rest) calls to_remove
      ≡ start_all rest (calls ++ start_calls cs) (to_remove ++ inactive cs)
unfolding start_all
start_all_lem [] rest calls to_remove h = rw (append-nil calls, append-nil to_remove)
start_all_lem (c ∷ cs) rest calls to_remove (inl e, h) =
    rw (e, start_all)
      (start_all_lem cs rest (made c calls) to_remove h
        ∙ ap₂ (start_all rest) (made-start_calls c cs calls)
            (ap (λ l. to_remove ++ l) (sym (inactive-started c cs e))))
start_all_lem (c ∷ cs) rest calls to_remove (inr e, h) =
    rw (e, start_all)
      (start_all_lem cs rest (made c calls) (to_remove ++ c ∷ []) h
        ∙ ap₂ (start_all rest) (made-start_calls c cs calls) (
            append_assoc to_remove (c ∷ []) (inactive cs)
            ∙ ap (λ l. to_remove ++ l) (sym (inactive-disabled c cs e))))

enabled_of_raises :
    (c : Component) (e : Error) → guarded_start c ≡ some e → e ≢ disable_component → c.enable ≡ true
unfolding guarded_start
enabled_of_raises c e h other = ground arith

start_all_raises :
    (c : Component) (cs : List Component) (calls : List Call) (to_remove : List Component)
    (e : Error)
    → guarded_start c ≡ some e
    → e ≢ disable_component
    → start_all (c ∷ cs) calls to_remove ≡ (err e, calls ++ Call.start c.ident ∷ [])
unfolding start_all
start_all_raises c cs calls to_remove e h other = ground (arith, enabled_of_raises c e h other)

-- Removing other objects leaves the first one where it is.
remove_all-cons :
    (c : Component) (rs cs : List Component)
    → All (λ d. d.ident ≢ c.ident) rs
    → remove_all rs (c ∷ cs) ≡ c ∷ remove_all rs cs
unfolding remove_all
remove_all-cons c [] cs h = refl
remove_all-cons c (r ∷ rs) cs (h, hs) =
    let kept : remove r (c ∷ cs) ≡ c ∷ remove r cs =
      unfold remove in ground (arith, ==_iff c.ident r.ident) in
    rw kept (remove_all-cons c rs (remove r cs) hs)

remove_self : (c : Component) (cs : List Component) → remove c (c ∷ cs) ≡ cs
unfolding remove
remove_self c cs = ground (arith, ==_refl c.ident)

All-inactive {κ} : (P : Component → Type κ) (cs : List Component) → All P cs → All P (inactive cs)
All-inactive P [] h = tt
All-inactive P (c ∷ cs) (h, hs) = elim (Bool-cases (is_active c)) [
  | inl e ↦ rw e (All-inactive P cs hs)
  | inr e ↦ rw e (h, All-inactive P cs hs)
]

remove_all-inactive :
    (cs : List Component) → AreDistinct cs → remove_all (inactive cs) cs ≡ active cs
remove_all-inactive [] h = unfold remove_all in refl
remove_all-inactive (c ∷ cs) (h, hs) = elim (Bool-cases (is_active c)) [
  | inl e ↦ rw e (
      remove_all-cons c (inactive cs) cs (All-inactive (λ d. d.ident ≢ c.ident) cs h)
      ∙ ap (λ l. c ∷ l) (remove_all-inactive cs hs))
  | inr e ↦ rw e (first ∙ remove_all-inactive cs hs)
]
  where
    first : remove_all (c ∷ inactive cs) (c ∷ cs) ≡ remove_all (inactive cs) cs
    first = unfold remove_all in ap (remove_all (inactive cs)) (remove_self c cs)

-- The application after a start at which no hook raises anything but DisableComponentError: the
-- components that started, in their order, are left and make up the handler, and each enabled
-- component's hook ran once, in order.
pub start_app_lem :
    (app : Application)
    → app.started ≡ false
    → AreDistinct app.components
    → All Starts app.components
    → start_app app ≡ (
      none,
      record app {
        components = active app.components;
        started = true;
        handler = some (active app.components);
        calls = app.calls ++ start_calls app.components;
      },
    )
unfolding start_app finish_start
start_app_lem app fresh distinct starts =
    let ran : start_all app.components app.calls []
        ≡ (ok (inactive app.components), app.calls ++ start_calls app.components) =
      unfold start_all in
      ap (λ cs. start_all cs app.calls []) (sym (append-nil app.components))
      ∙ start_all_lem app.components [] app.calls [] starts in
    rw (fresh, ran) (rw (remove_all-inactive app.components distinct))

-- Where a component's hook raises another exception, `start` raises it, with the hooks of the
-- components before it run and none behind it. The application then counts as started, with the handler
-- that it had before, and any later `start` does nothing.
pub start_app_fails :
    (app : Application) (before after : List Component) (c : Component) (e : Error)
    → app.started ≡ false
    → app.components ≡ before ++ c ∷ after
    → All Starts before
    → guarded_start c ≡ some e
    → e ≢ disable_component
    → (failed : Application) × (start_app app ≡ (some e, failed))
      × (failed ≡ record app {
        started = true;
        calls = app.calls ++ start_calls before ++ Call.start c.ident ∷ [];
      })
      × (start_app failed ≡ (none, failed))
unfolding start_app finish_start
start_app_fails app before after c e fresh shape starts raises other =
    let calls = app.calls ++ start_calls before in
    let ran : start_all app.components app.calls [] ≡ (err e, calls ++ Call.start c.ident ∷ []) =
      ap (λ cs. start_all cs app.calls []) shape
      ∙ start_all_lem before (c ∷ after) app.calls [] starts
      ∙ start_all_raises c after calls (inactive before) e raises other in
    (
      record app { started = true; calls = calls ++ Call.start c.ident ∷ [] },
      rw (fresh, ran),
      refl,
      refl,
    )

-- Whatever the first start did, a second one raises nothing and changes nothing.
start_app_twice : (app : Application) → start_app (start_app app).1 ≡ (none, (start_app app).1)
unfolding start_app finish_start
start_app_twice app = ground arith

-- `add` without a position appends, and so does position 0; a position from 1 on puts the component
-- behind as many of the others, or at the end where there are fewer.
pub add_lem :
    (added : Addable) (i : ℕ) (app : Application)
    → ((add added none app).components ≡ app.components ++ to_component added ∷ [])
      × (add added (some 0) app ≡ add added none app)
      × ((add added (some (suc i)) app).components
          ≡ take (suc i) app.components ++ to_component added ∷ drop (suc i) app.components)
unfolding add
add_lem added i app = (
  insert_end (to_component added) app.components,
  refl,
  insert_take (suc i) (to_component added) app.components,
)
  where
    insert_end : (c : Component) (cs : List Component) → insert_at (length cs) c cs ≡ cs ++ c ∷ []
    insert_end c [] = refl
    insert_end c (d ∷ cs) = ap (λ l. d ∷ l) (insert_end c cs)

    insert_take :
        (n : ℕ) (c : Component) (cs : List Component)
        → insert_at n c cs ≡ take n cs ++ c ∷ drop n cs
    insert_take zero c cs = refl
    insert_take (suc n) c [] = refl
    insert_take (suc n) c (d ∷ cs) = ap (λ l. d ∷ l) (insert_take n c cs)

-- At a negative position that the list has, `add` puts the component in front of as many as the position
-- counts.
pub add_from_end_lem :
    (added : Addable) (k : ℕ) (app : Application) (before after : List Component)
    → app.components ≡ before ++ after
    → length after ≡ suc k
    → (add_from_end added k app).components ≡ before ++ to_component added ∷ after
unfolding add_from_end
add_from_end_lem added k app before after e size =
    let place : length app.components - suc k ≡ length before =
      omega (arith, ap length e, length-append before after, size) in
    ap₂ (λ n cs. insert_at n (to_component added) cs) place e
    ∙ insert_between (to_component added) before
  where
    insert_between :
        (c : Component) (front : List Component)
        → insert_at (length front) c (front ++ after) ≡ front ++ c ∷ after
    insert_between c [] = refl
    insert_between c (d ∷ front) = ap (λ l. d ∷ l) (insert_between c front)
