-- ===== src/Middleware/Handlers/Profiling.antt =====
-- levin/components/profiling.py beside concurrent.py and inject.py: what a profiled handler is called with.
use levin.Prelude.{
  ℕ, ◌≡◌, refl, ◌∙◌, true, false, none, List, [], ◌∷◌, All, inl, inr, Bool-cases, if◌then◌else◌, ap,
}
use levin.Bytes.{codes}
use levin.Result.{ok, Result}
use levin.Dict.{Dict}
use levin.Common.{Value}
use levin.Middleware.{
  World, Out, Callable, plain, traced, with_request, Param, Env, get_item, ◌on_ok◌,
}
use levin.Middleware.Handlers.{
  add_request, inject, inject_params, sync_to_async, profile, run_with_profile, release, finally,
  has_param, has_target, remove_target, request_hash, after_call,
}

-- The middlewares behind the profiler that change the handler
abbrev pub behind_profiler : Env → (World → Callable → Out) → World → Callable → Out
behind_profiler env next w handler =
    sync_to_async env w handler (λ w h. inject env w h (λ w h. add_request w h next))

abbrev pub IsUninjected : Param → Type 0
IsUninjected p = p.injected ≡ none

inject_params-none :
    (env : Env) (params : List Param) (kwargs : Dict Value) (w : World)
    → All IsUninjected params
    → inject_params env params kwargs w ≡ (ok kwargs, w)
unfolding inject_params
inject_params-none env [] kwargs w h = refl
inject_params-none env (p ∷ params) kwargs w h = rw h.0 (inject_params-none env params kwargs w h.1)

profile_on :
    (env : Env) (w : World) (handler : Callable) (next : World → Callable → Out)
    → w.locked ≡ false
    → has_target (request_hash w.request) w.targets ≡ true
    → profile env w handler next ≡ run_with_profile env w handler next
unfolding profile
profile_on env w handler next free e = rw (e, free)

profile_off :
    (env : Env) (w : World) (handler : Callable) (next : World → Callable → Out)
    → has_target (request_hash w.request) w.targets ≡ false
    → profile env w handler next ≡ finally (next w handler) (after_call env)
unfolding profile
profile_off env w handler next e = rw e

behind_profiler-traced :
    (env : Env) (next : World → Callable → Out) (w : World) (depth : Value) (n : ℕ)
    (params : List Param)
    → behind_profiler env next w (traced depth (plain n true params))
      ≡ next w (traced depth (plain n true params))
unfolding sync_to_async inject add_request inject_params
behind_profiler-traced env next w depth n params = refl

behind_profiler-plain :
    (env : Env) (next : World → Callable → Out) (w : World) (n : ℕ) (params : List Param)
    → has_param (codes "request") params ≡ true
    → All IsUninjected params
    → behind_profiler env next w (plain n true params) ≡ next w (with_request (plain n true params))
unfolding sync_to_async inject add_request
behind_profiler-plain env next w n params p u = rw (inject_params-none env params [] w u, p)

run_with_profile-traced :
    (env : Env) (w w' : World) (n : ℕ) (params : List Param) (depth : Value)
    (next : World → Callable → Out)
    → get_item env
        (codes "depth")
        (Value.int 1)
        (record w { targets = remove_target (request_hash w.request) w.targets; locked = true })
      ≡ (ok depth, w')
    → run_with_profile env w (plain n true params) next
      ≡ release (
          finally
            (next w' (traced depth (plain n true params)))
            (λ w''. (env.profile_callback (plain n true params), w'')))
unfolding run_with_profile
run_with_profile-traced env w w' n params depth next d =
    ap
      (λ (o : Result Value × World). release (
        o on_ok (λ depth w'.
          finally (next w' (traced depth (plain n true params)))
            (λ w''. (env.profile_callback (plain n true params), w'')))))
      d

-- A coroutine function with a parameter `request` (and none to inject) is called with the request where
-- the component does not profile it; where it does, the handler is called with no argument, since the
-- function that the profiler makes of it shows no parameter of that name, and the profiler's lock is held
-- meanwhile and free behind it.
pub profile-drops_request :
    (env : Env) (w w' : World) (n : ℕ) (params : List Param) (depth : Value)
    (next : World → Callable → Out)
    → has_param (codes "request") params ≡ true
    → All IsUninjected params
    → w.locked ≡ false
    → get_item env
        (codes "depth")
        (Value.int 1)
        (record w { targets = remove_target (request_hash w.request) w.targets; locked = true })
      ≡ (ok depth, w')
    → profile env w (plain n true params) (behind_profiler env next) ≡ (
        if has_target (request_hash w.request) w.targets
        then release (
            finally
              (next w' (traced depth (plain n true params)))
              (λ w''. (env.profile_callback (plain n true params), w'')))
        else finally (next w (with_request (plain n true params))) (after_call env))
profile-drops_request env w w' n params depth next p u free d =
    elim (Bool-cases (has_target (request_hash w.request) w.targets)) [
      | inl e ↦ rw e (
          profile_on env w _ _ free e
          ∙ run_with_profile-traced env w w' n params depth _ d
          ∙ ap
              (λ (out : Out).
                release (finally out (λ w''. (env.profile_callback (plain n true params), w''))))
              (behind_profiler-traced env next w' depth n params))
      | inr e ↦ rw e (
          profile_off env w _ _ e
          ∙ ap (λ (out : Out). finally out (after_call env))
              (behind_profiler-plain env next w n params p u))
    ]
