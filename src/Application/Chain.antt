-- ===== src/Application/Chain.antt =====
-- levin/core/app.py: `_create_handler`, the composition of the middlewares. What a middleware does with
-- the request, the handler and the rest of the chain is a parameter, by the component's identity.
use levin.Prelude.{ℕ, ◌≡◌, refl, ap, ◌∙◌, List, [], ◌∷◌, ◌++◌, reverse, if◌then◌else◌}
use mathlib.Core.List.{reverse-cons}
use levin.Component.{Component}

module _ {Req Hdl Out : Type 0} (behave : ℕ → Req → Hdl → (Req → Hdl → Out) → Out)
    (call : Req → Hdl → Out) where
  -- _call_next(request, handler), which calls the handler with no argument; the request is the state in
  -- which it runs.
  unfoldable pub call_next : Req → Hdl → Out
  call_next request handler = call request handler

  -- One round of the loop: `partial(component.middleware, call_next=call_next)`.
  unfoldable pub wrap : Component → (Req → Hdl → Out) → Req → Hdl → Out
  wrap c next request handler =
      if c.has_middleware then behave c.ident request handler next else next request handler

  -- The loop, over the reversed list.
  unfoldable pub wrap_all : List Component → (Req → Hdl → Out) → Req → Hdl → Out
  unfolding wrap
  wrap_all [] next = next
  wrap_all (c ∷ cs) next = wrap_all cs (wrap c next)

  -- Application._create_handler(handler)
  unfoldable pub create_handler : List Component → Hdl → Req → Out
  unfolding wrap_all call_next
  create_handler cs handler request = wrap_all (reverse cs) call_next request handler

  wrap_all-append :
      (xs ys : List Component) (next : Req → Hdl → Out)
      → wrap_all (xs ++ ys) next ≡ wrap_all ys (wrap_all xs next)
  unfolding wrap_all
  wrap_all-append [] ys next = refl
  wrap_all-append (c ∷ xs) ys next = wrap_all-append xs ys (wrap c next)

  -- The first component's middleware is the outermost: it is given the request, the handler, and the
  -- chain of the components behind it; a component without a middleware is passed over; behind the
  -- last component the handler is called.
  pub create_handler_nested :
      (c : Component) (cs : List Component) (handler : Hdl) (request : Req)
      → (create_handler (c ∷ cs) handler request ≡ (
          if c.has_middleware
          then behave c.ident request handler (λ r h. create_handler cs h r)
          else create_handler cs handler request))
        × (create_handler [] handler request ≡ call request handler)
  unfolding create_handler
  create_handler_nested c cs handler request = (
    ap (λ f. f request handler)
        (ap (λ l. wrap_all l call_next) (reverse-cons c cs)
          ∙ wrap_all-append (reverse cs) (c ∷ []) call_next),
    refl,
  )
