-- ===== src/Profile/Bounds.antt =====
-- levin/utils/profile.py: the tracing of a call returns, and the functions that are followed stay bounded.
use levin.Prelude.{
  ℕ, suc, ◌≡◌, Bool, true, false, Option, none, some, List, [], ◌∷◌, ◌==◌, length, Bool-cases, inl,
  inr, if◌then◌else◌, ◌⊎◌,
}
use levin.Bytes.{Str}
use levin.Result.{Result, ok, err, ◌>>=◌}
use levin.Profile.{
  Code, Frame, Event, Profile, is_call_event, same_code, has_target, indexes_from, follow,
  save_behind, save_frame, depth_in, depth_at, current_depth, get_event_frame, get_current_depth,
  record_event, trace, get_depth_at_recursion, count_same,
}
use levin.Profile.Targets.{Holds, IsBounded, trace-Holds}
use levin.Profile.Lines.Keys.{Returns, Returns-bind}

abbrev Ok {ℓ} : {A : Type ℓ} → Result A → Type 0
Ok r = Returns (λ a. Unit) r

Returns-Holds {ℓ} : {A : Type ℓ} (P : A → Type 0) (r : Result A) → Ok r → Holds P r → Returns P r
Returns-Holds P (err e) o h = o
Returns-Holds P (ok a) o h = h

Ok-bind {ℓ κ} :
    {A : Type ℓ} {B : Type κ} (m : Result A) (f : A → Result B)
    → Ok m
    → ((a : A) → Ok (f a))
    → Ok (m >>= f)
Ok-bind m f o h = Returns-bind (λ a. Unit) (λ b. Unit) m f (λ a t. h a) o

-- The frames behind a frame reach one of another code.
abbrev pub IsGrounded : List Frame → Type 0
IsGrounded [] = ⊥
IsGrounded (frame ∷ []) = ⊥
IsGrounded (frame ∷ mother ∷ back) =
    (same_code frame.code mother.code ≡ false) ⊎ IsGrounded (mother ∷ back)

count_after :
    (same : Bool) (rest : Result ℕ)
    → (same ≡ false) ⊎ Ok rest
    → Ok (elim same as (λ b. Result ℕ) [ true ↦ rest >>= (λ n. ok (suc n)) | false ↦ ok 0 ])
count_after true rest (inl e) = cc e
count_after true rest (inr o) = Ok-bind rest _ o (λ n. tt)
count_after false rest o = tt

count_same-Ok : (stack : List Frame) → IsGrounded stack → Ok (count_same stack)
unfolding count_same
count_same-Ok [] g = g
count_same-Ok (frame ∷ []) g = g
count_same-Ok (frame ∷ mother ∷ back) (inl e) =
    count_after (same_code frame.code mother.code) (count_same (mother ∷ back)) (inl e)
count_same-Ok (frame ∷ mother ∷ back) (inr g) =
    count_after (same_code frame.code mother.code) (count_same (mother ∷ back))
      (inr (count_same-Ok (mother ∷ back) g))

depth_at-Ok :
    (stack : List Frame) (indexes : List ℕ) → IsGrounded stack → Ok (depth_at stack indexes)
unfolding depth_at get_depth_at_recursion
depth_at-Ok stack [] g = tt
depth_at-Ok stack (i ∷ []) g = tt
depth_at-Ok stack (i ∷ j ∷ indexes) g =
    Ok-bind (count_same stack) _ (count_same-Ok stack g) (λ depth. tt)

module _ (source : Code → Result (List Str)) (total : (code : Code) → Ok (source code)) where
  save_frame-Ok :
      (frame mother : Frame) (back : List Frame) (p : Profile)
      → Ok (save_frame source frame (mother ∷ back) p)
  unfolding save_frame save_behind follow
  save_frame-Ok frame mother back p = elim (Bool-cases (length p.target_func == p.depth)) [
    | inl e ↦ rw e tt
    | inr e ↦ rw e (elim (Bool-cases (has_target mother.code p.target_func)) [
      | inl h ↦ rw h (Ok-bind (source frame.code) _ (total frame.code) (λ lines. tt))
      | inr h ↦ rw h tt
    ])
  ]

  current_depth-Ok :
      (stack : List Frame) (p : Profile) → IsGrounded stack → Ok (current_depth source stack p)
  unfolding current_depth depth_in
  current_depth-Ok [] p g = g
  current_depth-Ok (frame ∷ []) p g = absurd g
  current_depth-Ok (frame ∷ mother ∷ back) p g =
      Ok-bind (save_frame source frame (mother ∷ back) p) _ (save_frame-Ok frame mother back p)
        (λ p'.
          Ok-bind (depth_at (frame ∷ mother ∷ back) (indexes_from 0 frame.code p'.target_func)) _
            (depth_at-Ok (frame ∷ mother ∷ back) (indexes_from 0 frame.code p'.target_func) g)
            (λ depth. tt))

  record_event-Ok :
      (now : ℕ) (event : Event) (frame : Frame) (back : List Frame) (found : Option ℕ × Profile)
      → is_call_event event ≡ true
      → Ok (record_event source now event (frame ∷ back) found)
  unfolding record_event
  record_event-Ok now event frame back (none, p) c = tt
  record_event-Ok now event frame back (some depth, p) c = rw c tt

  trace-Ok :
      (now : ℕ) (event : Event) (stack : List Frame) (p : Profile)
      → is_call_event event ≡ true
      → IsGrounded (get_event_frame event stack)
      → Ok (trace source now event stack p)
  unfolding trace get_current_depth
  trace-Ok now event [] p c g = tt
  trace-Ok now event (frame ∷ back) p c g =
      Ok-bind (current_depth source (get_event_frame event (frame ∷ back)) p) _
        (current_depth-Ok (get_event_frame event (frame ∷ back)) p g)
        (λ found. recorded (get_event_frame event (frame ∷ back)) found g)
    where
      recorded :
          (stack : List Frame) (found : Option ℕ × Profile)
          → IsGrounded stack
          → Ok (record_event source now event stack found)
      recorded [] found h = absurd h
      recorded (f ∷ rest) found h = record_event-Ok now event f rest found c

  -- Once a target was added to a profile whose depth is not 0, the functions that are followed are at least one
  -- and never more than the depth, whatever events come: the tracing of a call returns so, where the source of
  -- every function can be read and the frames behind reach one of another code, and the tracing of a return
  -- returns so or raises.
  pub trace-IsBounded :
      (now : ℕ) (event : Event) (stack : List Frame) (p : Profile)
      → IsBounded p
      → IsGrounded (get_event_frame event stack)
      → (if is_call_event event
          then Returns IsBounded (trace source now event stack p)
          else Holds IsBounded (trace source now event stack p))
  trace-IsBounded now event stack p b g =
      let held = trace-Holds source now event stack p b in
      elim (Bool-cases (is_call_event event)) [
        | inl c ↦ rw c (
            Returns-Holds IsBounded (trace source now event stack p)
              (trace-Ok now event stack p c g) held)
        | inr c ↦ rw c held
      ]
