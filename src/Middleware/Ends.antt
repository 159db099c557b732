-- ===== src/Middleware/Ends.antt =====
-- What comes out of a middleware, by kinds of answers.
use levin.Result.{Result, ok, err}
use levin.Middleware.{
  Answer, response, mapping, items, template, other, World, Out, Callable, Middleware, ◌on_ok◌,
}

abbrev pub IsResponse : Answer → Type 0
IsResponse (response r) = Unit
IsResponse _ = ⊥

-- What JsonFormat makes a Response of, and a Response
abbrev pub IsJsonable : Answer → Type 0
IsJsonable (response r) = Unit
IsJsonable (mapping d) = Unit
IsJsonable (items vs) = Unit
IsJsonable _ = ⊥

abbrev pub IsFormattable : Answer → Type 0
IsFormattable (template path context) = ⊥
IsFormattable (other n) = ⊥
IsFormattable _ = Unit

-- Any of the seven kinds but another object
abbrev pub IsKnown : Answer → Type 0
IsKnown (other n) = ⊥
IsKnown _ = Unit

-- The call raised, or what it returned has the property.
abbrev pub Ends : (Answer → Type 0) → Out → Type 0
Ends P (err e, w) = Unit
Ends P (ok a, w) = P a

-- A middleware turns ends of one kind into ends of another.
abbrev pub Turns : (P Q : Answer → Type 0) → Middleware → Type 0
Turns P Q m =
    (w : World) (handler : Callable) (next : World → Callable → Out)
    → ((w' : World) (h : Callable) → Ends P (next w' h))
    → Ends Q (m w handler next)

pub Ends-on_ok :
    {A : Type 0} (P : Answer → Type 0) (out : Result A × World) (f : A → World → Out)
    → ((a : A) (w : World) → Ends P (f a w))
    → Ends P (out on_ok f)
Ends-on_ok P (err e, w) f h = tt
Ends-on_ok P (ok a, w) f h = h a w

pub Ends-bind :
    (P Q : Answer → Type 0) (out : Out) (f : Answer → World → Out)
    → ((a : Answer) (w : World) → P a → Ends Q (f a w))
    → Ends P out
    → Ends Q (out on_ok f)
Ends-bind P Q (err e, w) f h p = tt
Ends-bind P Q (ok a, w) f h p = h a w p
