-- ===== src/Profile/Session.antt =====
-- levin/utils/profile.py: `trace`, `run`, `start_trace` and `stop`, with the interpreter's profile function
-- and `tracemalloc`. The function that is profiled changes what is recorded, by the events that it causes.
use levin.Prelude.{
  ℕ, ◌≡◌, refl, Bool, true, false, Option, none, some, List, [], ◌∷◌, ◌++◌, if◌then◌else◌,
}
use levin.Bytes.{Str}
use levin.Result.{Result, ok, err}
use levin.Profile.{Code, CallResult, Profile, new_profile, add_target}
use levin.Profile.Lines.{Statistic, get_memory_for_call, get_lines}

-- A function of `sys.setprofile`: the `_trace` of this profile, or another one.
pub data Hook : Type 0 where
  own_trace : Hook
  foreign : ℕ → Hook

-- Of the interpreter: `sys.getprofile()`, and whether `tracemalloc` traces.
pub record System : Type 0 where
  pub profile_function : Option Hook
  pub tracing : Bool

-- SimpleProfile
pub record Session (Snapshot : Type 0) : Type 0 where
  pub recording : Profile
  pub trace_mem : Bool
  pub orig_trace : Option Hook
  pub trace_mem_snapshot : Option Snapshot
  pub stopped : Bool

-- What a call returned or raised, with the profile and the interpreter behind it.
pub record Ran {ℓ} (Snapshot : Type 0) (A : Type ℓ) : Type ℓ where
  pub result : Result A
  pub session : Session Snapshot
  pub system : System

-- `take_snapshot` and the statistics of a snapshot are parameters.
module _ {Snapshot : Type 0} (statistics : Snapshot → ℕ → ℕ → List Statistic)
    (take_snapshot : System → Result Snapshot) where
  -- SimpleProfile.__init__(depth, memory)
  unfoldable pub new_session : ℕ → Bool → Session Snapshot
  unfolding new_profile
  new_session depth memory = record {
    recording = new_profile depth;
    trace_mem = memory;
    orig_trace = none;
    trace_mem_snapshot = none;
    stopped = false;
  }

  -- start_trace()
  unfoldable pub start_trace : Session Snapshot → System → System
  start_trace s w = record w {
    profile_function = some own_trace;
    tracing = if s.trace_mem then true else w.tracing;
  }

  keep_snapshot : Result Snapshot → Session Snapshot → System → Ran {0} Snapshot Unit
  keep_snapshot (err e) s w = record { result = err e; session = s; system = w }
  keep_snapshot (ok snapshot) s w = record {
    result = ok tt;
    session = record s { trace_mem_snapshot = some snapshot; stopped = true };
    system = record w { tracing = false };
  }

  restore : Bool → Session Snapshot → System → Ran {0} Snapshot Unit
  unfolding keep_snapshot
  restore true s w = keep_snapshot (take_snapshot w) s w
  restore false s w = record { result = ok tt; session = record s { stopped = true }; system = w }

  -- stop()
  unfoldable pub stop : Session Snapshot → System → Ran {0} Snapshot Unit
  unfolding restore
  stop s w =
      if s.stopped
      then record { result = ok tt; session = s; system = w }
      else restore s.trace_mem s (record w { profile_function = s.orig_trace })

  -- `finally: self.stop()`, whose exception replaces the result.
  finally_stop {ℓ} : {A : Type ℓ} → Result A → Ran {0} Snapshot Unit → Ran Snapshot A
  finally_stop result after = record {
    result = elim after.result [ err e ↦ err e | ok done ↦ result ];
    session = after.session;
    system = after.system;
  }

  module _ {ℓ} {A : Type ℓ} (func : Profile → Result A × Profile) where
    -- _run(func, *args, **kwargs), and `_run_async` of a coroutine function
    unfoldable pub run_traced : Session Snapshot → System → Ran Snapshot A
    unfolding start_trace stop finally_stop
    run_traced s w =
        let (result, recording) = func s.recording in
        finally_stop result (stop (record s { recording = recording }) (start_trace s w))

    -- `add_target` has added the target when `getsource` raises.
    run_added : Code → Result Profile → Session Snapshot → System → Ran Snapshot A
    unfolding run_traced
    run_added code (err e) s w =
        let added : Profile = record s.recording {
          target_func = s.recording.target_func ++ code ∷ [];
        } in
        record { result = err e; session = record s { recording = added }; system = w }
    run_added code (ok recording) s w =
        run_traced (record s { recording = recording; orig_trace = w.profile_function }) w

    -- run(func, *args, **kwargs): add_target(func), and what trace(func) gives, called.
    unfoldable pub run :
        (source : Code → Result (List Str)) → Code → Session Snapshot → System → Ran Snapshot A
    unfolding run_added
    run source code s w = run_added code (add_target source code s.recording) s w

  -- get_lines() of this profile
  unfoldable pub session_lines : Session Snapshot → Result (List CallResult)
  unfolding get_lines
  session_lines s =
      get_lines (get_memory_for_call statistics s.trace_mem s.trace_mem_snapshot) s.recording

  keep_snapshot_lem :
      (taken : Result Snapshot) (s : Session Snapshot) (w : System)
      → (keep_snapshot taken s w).system.profile_function ≡ w.profile_function
  unfolding keep_snapshot
  keep_snapshot_lem (err e) s w = refl
  keep_snapshot_lem (ok snapshot) s w = refl

  restore_lem :
      (memory : Bool) (s : Session Snapshot) (w : System)
      → (restore memory s w).system.profile_function ≡ w.profile_function
  unfolding restore
  restore_lem true s w = keep_snapshot_lem (take_snapshot w) s w
  restore_lem false s w = refl

  stop_lem :
      (s : Session Snapshot) (w : System)
      → (stop s w).system.profile_function
        ≡ (if s.stopped then w.profile_function else s.orig_trace)
  unfolding stop
  stop_lem s w = go s.stopped
    where
      go :
          (b : Bool)
          → (if b
              then record { result = ok tt; session = s; system = w }
              else restore s.trace_mem s
                  (record w { profile_function = s.orig_trace })).system.profile_function
            ≡ (if b then w.profile_function else s.orig_trace)
      go true = refl
      go false = restore_lem s.trace_mem s (record w { profile_function = s.orig_trace })

  -- Whatever the profiled function returns or raises, once it was added `run` leaves the interpreter with the
  -- profile function that it had before, where the profile was never stopped; where it was stopped by an
  -- earlier run, its own `_trace` stays installed.
  pub run-restores {ℓ} :
      {A : Type ℓ} (func : Profile → Result A × Profile) (source : Code → Result (List Str))
      (code : Code) (s : Session Snapshot) (w : System) (recording : Profile)
      → add_target source code s.recording ≡ ok recording
      → (run func source code s w).system.profile_function
        ≡ (if s.stopped then some own_trace else w.profile_function)
  unfolding run run_added run_traced start_trace finally_stop
  run-restores func source code s w recording e = rw e (
      stop_lem (record s { recording = (func recording).1; orig_trace = w.profile_function })
        (start_trace s w))
