-- ===== src/Middleware/Handlers/Kinds.antt =====
-- levin/components: the middlewares that change the handler pass on what comes of it.
use levin.Prelude.{[], Bool-cases, inl, inr, Option, none, some, ◌&&◌, not}
use levin.Result.{Error, Result, ok, err}
use levin.Middleware.{traced, Answer, World, Out, Env, get_item}
use levin.Middleware.Ends.{Ends, Turns, Ends-on_ok}
use levin.Middleware.Handlers.{
  add_request, inject, inject_params, params_of, sync_to_async, is_coroutine_function, run_process,
  profile, run_with_profile, release, wants_process, execute_if, finally, has_code, has_target,
  request_hash, after_call,
}

module _ (P : Answer → Type 0) where
  pub add_request-Turns : Turns P P add_request
  unfolding add_request
  add_request-Turns w handler next h = h w _

  pub inject-Turns : (env : Env) → Turns P P (inject env)
  unfolding inject
  inject-Turns env w handler next h =
      Ends-on_ok P (inject_params env (params_of handler) [] w) _ (λ kwargs w'. h w' _)

  pub run_process-Turns : (env : Env) → Turns P P (run_process env)
  unfolding run_process execute_if
  run_process-Turns env w handler next h = Ends-on_ok P (wants_process env w) _ (λ v w'. h w' _)

  pub sync_to_async-Turns : (env : Env) → Turns P P (sync_to_async env)
  unfolding sync_to_async execute_if
  sync_to_async-Turns env w handler next h = elim (Bool-cases (is_coroutine_function handler)) [
    | inl e ↦ rw e (h w _)
    | inr e ↦ rw e (Ends-on_ok P (wants_process env w) _ (λ v w'. h w' _))
  ]

  finally-Ends :
      (out : Out) (f : World → Option Error × World) → Ends P out → Ends P (finally out f)
  finally-Ends (result, w) f h = after (f w) result h
    where
      after :
          (o : Option Error × World) (r : Result Answer)
          → Ends P (r, w)
          → Ends P (elim o.0 [ none ↦ (r, o.1) | some e ↦ (err e, o.1) ])
      after (none, w') (ok a) k = k
      after (none, w') (err e) k = tt
      after (some e, w') r k = tt

  release-Ends : (out : Out) → Ends P out → Ends P (release out)
  unfolding release
  release-Ends (err e, w) h = h
  release-Ends (ok a, w) h = h

  run_with_profile-Turns : (env : Env) → Turns P P (run_with_profile env)
  unfolding run_with_profile
  run_with_profile-Turns env w handler next h = release-Ends _ (
      Ends-on_ok P (get_item env _ _ _) _ (λ depth w'. elim (Bool-cases (has_code handler)) [
        | inl e ↦ rw e (
            finally-Ends (next w' (traced depth handler))
              (λ w''. (env.profile_callback handler, w'')) (h w' (traced depth handler)))
        | inr e ↦ rw e tt
      ]))

  pub profile-Turns : (env : Env) → Turns P P (profile env)
  unfolding profile
  profile-Turns env w handler next h =
      elim (Bool-cases (has_target (request_hash w.request) w.targets && not w.locked)) [
        | inl e ↦ rw e (run_with_profile-Turns env w handler next h)
        | inr e ↦ rw e (finally-Ends (next w handler) (after_call env) (h w handler))
      ]
