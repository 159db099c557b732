-- ===== src/Middleware/Default/Answers.antt =====
-- levin/app.py: what comes out of the chain of the default components.
use levin.Prelude.{◌≡◌, refl, ◌∙◌, true, List, ◌∷◌, drop}
use levin.Component.{Component}
use levin.Application.Chain.{create_handler_nested}
use levin.Middleware.{Answer, World, Out, Callable, in_world}
use levin.Middleware.Ends.{IsResponse, IsJsonable, IsFormattable, IsKnown, Ends, Turns, Ends-on_ok}
use levin.Middleware.Formats.Kinds.{json_format-Turns, text_format-Turns, template_format-Turns}
use levin.Middleware.Handlers.Kinds.{
  add_request-Turns, inject-Turns, run_process-Turns, sync_to_async-Turns, profile-Turns,
}
use levin.Middleware.Guards.Kinds.{
  IsAnswered, AlwaysResponds, time_limit-Turns, error_handle-IsAnswered, IsAnswered-Ends,
  push-Turns, logger-Turns,
}
use levin.Middleware.Default.{
  Program, default_components, patch, route, to_route, behave, respond_by,
}

module _ (program : Program) where
  -- The components from `error_handle` on
  abbrev pub guarded : World → Callable → Out
  guarded w h = respond_by program (drop 3 default_components) h w

  abbrev EndsFrom : (Answer → Type 0) → List Component → Type 0
  EndsFrom P cs = (w : World) (h : Callable) → Ends P (respond_by program cs h w)

  respond_by_step :
      (c : Component) (cs : List Component) (w : World) (h : Callable)
      → c.has_middleware ≡ true
      → respond_by program (c ∷ cs) h w
        ≡ behave program c.ident w h (λ w' h'. respond_by program cs h' w')
  unfolding respond_by
  respond_by_step c cs w h e =
      (create_handler_nested (behave program) (λ w' h'. program.env.call h' w') c cs h w).0 ∙ rw e

  step_at :
      (R : Out → Type 0) (c : Component) (cs : List Component) (w : World) (h : Callable)
      → c.has_middleware ≡ true
      → R (behave program c.ident w h (λ w' h'. respond_by program cs h' w'))
      → R (respond_by program (c ∷ cs) h w)
  step_at R c cs w h e k = rw (respond_by_step c cs w h e) k

  step :
      (P Q : Answer → Type 0) (c : Component) (cs : List Component)
      → c.has_middleware ≡ true
      → Turns P Q (behave program c.ident)
      → EndsFrom P cs
      → EndsFrom Q (c ∷ cs)
  step P Q c cs e turns h w handler =
      step_at (Ends Q) c cs w handler e (turns w handler _ (λ w' h'. h w' h'))

  route-Turns : (P : Answer → Type 0) → Turns P P (route program)
  unfolding route to_route
  route-Turns P w handler next h = Ends-on_ok P (in_world w _) _ (λ n w'. h w' _)

  last :
      (w : World) (h : Callable)
      → respond_by program (drop 14 default_components) h w ≡ program.env.call h w
  unfolding respond_by default_components
  last w h = refl

  -- What `error_handle` is given.
  inner :
      ((w : World) (h : Callable) → Ends IsKnown (program.env.call h w))
      → EndsFrom IsResponse (drop 4 default_components)
  unfolding default_components behave
  inner known = step IsResponse IsResponse _ _ refl (time_limit-Turns program.env) (
      step IsResponse IsResponse _ _ refl (route-Turns IsResponse) (
        step IsResponse IsResponse _ _ refl (run_process-Turns IsResponse program.env) (
          step IsResponse IsResponse _ _ refl (profile-Turns IsResponse program.env) (
            step IsResponse IsResponse _ _ refl (sync_to_async-Turns IsResponse program.env) (
              step IsJsonable IsResponse _ _ refl (json_format-Turns program.env) (
                step IsFormattable IsJsonable _ _ refl (text_format-Turns program.env) (
                  step IsKnown IsFormattable _ _ refl
                    (template_format-Turns program.env program.templates)
                    (step IsKnown IsKnown _ _ refl (inject-Turns IsKnown program.env) (
                      step IsKnown IsKnown _ _ refl (add_request-Turns IsKnown)
                        (λ w h. rw (last w h) (known w h)))))))))))

  answered :
      ((w : World) (h : Callable) → Ends IsKnown (program.env.call h w))
      → AlwaysResponds program.env
      → (w : World) (h : Callable) → IsAnswered (guarded w h)
  unfolding default_components behave
  answered known always w h =
      step_at IsAnswered _ (drop 4 default_components) w h refl
        (error_handle-IsAnswered program.env always w h _ (inner known w h))

  patch-Turns : Turns IsResponse IsResponse patch
  unfolding patch
  patch-Turns w handler next h = h _ handler

  -- The chain from `error_handle` on always answers with a Response, whatever the request, the routes, the
  -- clock and the handlers are; the whole chain, whose first three components are outside `error_handle`,
  -- answers with a Response or raises. The conditions are that a handler which returns gives a
  -- Response, a dict, a list or tuple, a str, bytes or a Template, and that the setting `on_error`
  -- gives a Response for any exception.
  pub guarded-IsAnswered :
      ((w : World) (h : Callable) → Ends IsKnown (program.env.call h w))
      → AlwaysResponds program.env
      → (w : World) (h : Callable)
      → IsAnswered (guarded w h) × Ends IsResponse (respond_by program default_components h w)
  unfolding default_components behave
  guarded-IsAnswered known always w h = (
    answered known always w h,
    step IsResponse IsResponse _ _ refl patch-Turns
        (step IsResponse IsResponse _ _ refl (push-Turns program.env) (
          step IsResponse IsResponse _ _ refl (logger-Turns program.env)
            (λ w' h'. IsAnswered-Ends (guarded w' h') (answered known always w' h'))))
        w h,
  )
