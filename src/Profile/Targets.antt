-- ===== src/Profile/Targets.antt =====
-- levin/utils/profile.py: how many functions are followed, and when a function loses its depth.
use levin.Prelude.{
  ℕ, ◌≤◌, ◌<◌, Option, none, some, List, [], ◌∷◌, ◌==◌, length, length-append, arith, Bool-cases,
  inl, inr,
}
use levin.Bytes.{Str}
use levin.Result.{Result, ok, err, ◌>>=◌}
use levin.Profile.{
  Code, Frame, Event, Profile, is_call_event, has_target, indexes_from, follow, save_behind,
  save_frame, depth_in, depth_at, current_depth, get_event_frame, get_current_depth, record_event,
  trace, trace_call, trace_return,
}

-- A call that returns gives what has the property.
abbrev pub Holds {ℓ} : {A : Type ℓ} → (A → Type 0) → Result A → Type 0
Holds P (err e) = Unit
Holds P (ok a) = P a

pub Holds-bind {ℓ κ} :
    {A : Type ℓ} {B : Type κ} (P : A → Type 0) (Q : B → Type 0) (m : Result A) (f : A → Result B)
    → ((a : A) → P a → Holds Q (f a))
    → Holds P m
    → Holds Q (m >>= f)
Holds-bind P Q (err e) f h p = tt
Holds-bind P Q (ok a) f h p = h a p

-- At least one function is followed, and no more than the depth.
abbrev pub IsBounded : Profile → Type 0
IsBounded p = (1 ≤ length p.target_func) × (length p.target_func ≤ p.depth)

module _ (source : Code → Result (List Str)) where
  follow-IsBounded :
      (code : Code) (p : Profile)
      → length p.target_func < p.depth
      → Holds IsBounded (follow source code p)
  unfolding follow
  follow-IsBounded code p h =
      Holds-bind (λ lines. Unit) IsBounded (source code) _
        (λ lines t. omega (arith, length-append p.target_func (code ∷ []))) (always (source code))
    where
      always : (r : Result (List Str)) → Holds (λ lines. Unit) r
      always (err e) = tt
      always (ok lines) = tt

  save_behind-IsBounded :
      (frame : Frame) (back : List Frame) (p : Profile)
      → IsBounded p
      → length p.target_func < p.depth
      → Holds IsBounded (save_behind source frame back p)
  unfolding save_behind
  save_behind-IsBounded frame [] p b h = tt
  save_behind-IsBounded frame (mother ∷ back) p b h =
      elim (Bool-cases (has_target mother.code p.target_func)) [
        | inl e ↦ rw e (follow-IsBounded frame.code p h)
        | inr e ↦ rw e b
      ]

  save_frame-IsBounded :
      (frame : Frame) (back : List Frame) (p : Profile)
      → IsBounded p
      → Holds IsBounded (save_frame source frame back p)
  unfolding save_frame
  save_frame-IsBounded frame back p b = elim (Bool-cases (length p.target_func == p.depth)) [
    | inl e ↦ rw e b
    | inr e ↦ rw e (save_behind-IsBounded frame back p b (ground arith))
  ]

  depth_in-Holds :
      (P : Profile → Type 0) (frame : Frame) (back : List Frame) (p : Profile)
      → P p
      → Holds (λ (found : Option ℕ × Profile). P found.1) (depth_in source frame back p)
  unfolding depth_in
  depth_in-Holds P frame back p h =
      after (depth_at (frame ∷ back) (indexes_from 0 frame.code p.target_func))
    where
      after :
          (r : Result (Option ℕ))
          → Holds (λ (found : Option ℕ × Profile). P found.1) (r >>= (λ depth. ok (depth, p)))
      after (err e) = tt
      after (ok depth) = h

  current_depth-IsBounded :
      (stack : List Frame) (p : Profile)
      → IsBounded p
      → Holds (λ (found : Option ℕ × Profile). IsBounded found.1) (current_depth source stack p)
  unfolding current_depth
  current_depth-IsBounded [] p b = tt
  current_depth-IsBounded (frame ∷ back) p b =
      Holds-bind IsBounded _ (save_frame source frame back p) _
        (λ p' b'. depth_in-Holds IsBounded frame back p' b') (save_frame-IsBounded frame back p b)

  trace_return-IsBounded :
      (now : ℕ) (frame : Frame) (depth : ℕ) (p : Profile)
      → IsBounded p
      → Holds IsBounded (trace_return now frame depth p)
  unfolding trace_return
  trace_return-IsBounded now frame depth p b = ground arith

  record_event-IsBounded :
      (now : ℕ) (event : Event) (back : List Frame) (found : Option ℕ × Profile)
      → IsBounded found.1
      → Holds IsBounded (record_event source now event back found)
  unfolding record_event trace_call
  record_event-IsBounded now event back (none, p) b = b
  record_event-IsBounded now event [] (some depth, p) b = tt
  record_event-IsBounded now event (frame ∷ back) (some depth, p) b =
      elim (Bool-cases (is_call_event event)) [
        | inl e ↦ rw e b
        | inr e ↦ rw e (trace_return-IsBounded now frame depth p b)
      ]

  -- Whatever events come, over whatever frames, the functions that are followed are at least one and never
  -- more than the depth, once a target was added to a profile whose depth is not 0.
  pub trace-Holds :
      (now : ℕ) (event : Event) (stack : List Frame) (p : Profile)
      → IsBounded p
      → Holds IsBounded (trace source now event stack p)
  unfolding trace get_current_depth
  trace-Holds now event [] p b = b
  trace-Holds now event (frame ∷ back) p b =
      Holds-bind (λ (found : Option ℕ × Profile). IsBounded found.1) IsBounded
        (current_depth source (get_event_frame event (frame ∷ back)) p) _
        (λ found b'. record_event-IsBounded now event _ found b')
        (current_depth-IsBounded (get_event_frame event (frame ∷ back)) p b)
