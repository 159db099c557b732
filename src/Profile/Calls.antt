-- ===== src/Profile/Calls.antt =====
-- levin/utils/profile.py: the recorded calls.
use levin.Prelude.{
  ℕ, ◌+◌, ◌≡◌, refl, ap, ◌∙◌, true, false, List, [], ◌∷◌, ◌++◌, ==_refl, length, arith, All,
  All-append, Bool-cases, inl, inr,
}
use levin.Profile.{
  Frame, Profile, CallResult, same_call, create_call_from, has_call, update_call, count_one,
  trace_call,
}

-- No two of the calls are the same.
abbrev pub AreDistinct : List CallResult → Type 0
AreDistinct [] = Unit
AreDistinct (c ∷ calls) = All (λ d. same_call d c ≡ false) calls × AreDistinct calls

has_call-append :
    (new : CallResult) (calls : List CallResult)
    → has_call new calls ≡ false
    → All (λ c. same_call new c ≡ false) calls
unfolding has_call
has_call-append new [] h = tt
has_call-append new (c ∷ calls) h = ground (arith, has_call-append new calls)

same_call_refl : (c : CallResult) → same_call c c ≡ true
same_call_refl c = rw (==_refl c.depth, ==_refl c.filename, ==_refl c.lineno)

same_call_sym : (c d : CallResult) → same_call c d ≡ false → same_call d c ≡ false
same_call_sym c d h = ground arith

AreDistinct-append :
    (calls : List CallResult) (new : CallResult)
    → All (λ c. same_call new c ≡ false) calls
    → AreDistinct calls
    → AreDistinct (calls ++ new ∷ [])
AreDistinct-append [] new h d = (tt, tt)
AreDistinct-append (c ∷ calls) new h d = (
  All-append (λ e. same_call e c ≡ false) calls (new ∷ []) d.0 (h.0, tt),
  AreDistinct-append calls new h.1 d.1,
)

-- A write that keeps the key is seen by no comparison.
update_call-All :
    (key new : CallResult) (f : CallResult → CallResult) (calls : List CallResult)
    → ((c : CallResult) → same_call (f c) key ≡ same_call c key)
    → All (λ d. same_call d key ≡ false) calls
    → All (λ d. same_call d key ≡ false) (update_call new f calls)
unfolding update_call
update_call-All key new f [] k h = tt
update_call-All key new f (c ∷ calls) k h = elim (Bool-cases (same_call new c)) [
  | inl e ↦ rw e (k c ∙ h.0, h.1)
  | inr e ↦ rw e (h.0, update_call-All key new f calls k h.1)
]

same_key :
    (c c' : CallResult) (calls : List CallResult)
    → ((key : CallResult) → same_call key c' ≡ same_call key c)
    → All (λ d. same_call d c ≡ false) calls
    → All (λ d. same_call d c' ≡ false) calls
same_key c c' [] k h = tt
same_key c c' (d ∷ calls) k h = (k d ∙ h.0, same_key c c' calls k h.1)

update_call-AreDistinct :
    (new : CallResult) (f : CallResult → CallResult) (calls : List CallResult)
    → ((c key : CallResult) → same_call (f c) key ≡ same_call c key)
    → ((c key : CallResult) → same_call key (f c) ≡ same_call key c)
    → AreDistinct calls
    → AreDistinct (update_call new f calls)
unfolding update_call
update_call-AreDistinct new f [] k k' d = tt
update_call-AreDistinct new f (c ∷ calls) k k' d = elim (Bool-cases (same_call new c)) [
  | inl e ↦ rw e (same_key c (f c) calls (k' c) d.0, d.1)
  | inr e ↦
      rw e (
        update_call-All c new f calls (λ x. k x c) d.0,
        update_call-AreDistinct new f calls k k' d.1,
      )
]

trace_call-AreDistinct :
    (now : ℕ) (frame : Frame) (depth : ℕ) (p : Profile)
    → AreDistinct p.calls
    → AreDistinct (trace_call now frame depth p).calls
unfolding trace_call
trace_call-AreDistinct now frame depth p d =
    let new = create_call_from now frame depth in
    elim (Bool-cases (has_call new p.calls)) [
      | inl e ↦
          rw e (update_call-AreDistinct new count_one p.calls (λ c key. refl) (λ c key. refl) d)
      | inr e ↦ rw e (AreDistinct-append p.calls new (has_call-append new p.calls e) d)
    ]

update_call-append :
    (new c : CallResult) (f : CallResult → CallResult) (calls : List CallResult)
    → All (λ d. same_call new d ≡ false) calls
    → same_call new c ≡ true
    → update_call new f (calls ++ c ∷ []) ≡ calls ++ f c ∷ []
unfolding update_call
update_call-append new c f [] h e = rw e
update_call-append new c f (d ∷ calls) h e =
    rw h.0 (ap (λ (l : List CallResult). d ∷ l) (update_call-append new c f calls h.1 e))

has_call-append_true :
    (new c : CallResult) (calls : List CallResult)
    → same_call new c ≡ true
    → has_call new (calls ++ c ∷ []) ≡ true
unfolding has_call
has_call-append_true new c [] e = rw e
has_call-append_true new c (d ∷ calls) e = ground (arith, has_call-append_true new c calls e)

-- The call event, once for each time
abbrev pub trace_calls : List ℕ → Frame → ℕ → Profile → Profile
trace_calls [] frame depth p = p
trace_calls (now ∷ times) frame depth p =
    trace_calls times frame depth (trace_call now frame depth p)

abbrev pub with_ncalls : ℕ → CallResult → CallResult
with_ncalls n c = record c { ncalls = n }

trace_call_again :
    (now : ℕ) (frame : Frame) (depth : ℕ) (p : Profile) (before : List CallResult) (c : CallResult)
    → p.calls ≡ before ++ c ∷ []
    → All (λ d. same_call (create_call_from now frame depth) d ≡ false) before
    → same_call (create_call_from now frame depth) c ≡ true
    → (trace_call now frame depth p).calls ≡ before ++ count_one c ∷ []
unfolding trace_call
trace_call_again now frame depth p before c e h k =
    rw (e, has_call-append_true (create_call_from now frame depth) c before k)
      (update_call-append (create_call_from now frame depth) c count_one before h k)

trace_calls_from :
    (times : List ℕ) (frame : Frame) (depth : ℕ) (p : Profile) (before : List CallResult)
    (c : CallResult)
    → p.calls ≡ before ++ c ∷ []
    → ((now : ℕ) → All (λ d. same_call (create_call_from now frame depth) d ≡ false) before)
    → ((now : ℕ) → same_call (create_call_from now frame depth) c ≡ true)
    → (trace_calls times frame depth p).calls
      ≡ before ++ with_ncalls (length times + c.ncalls) c ∷ []
trace_calls_from [] frame depth p before c e h k =
    e ∙ ap (λ (n : ℕ). before ++ with_ncalls n c ∷ []) (omega arith)
trace_calls_from (now ∷ times) frame depth p before c e h k =
    trace_calls_from times frame depth (trace_call now frame depth p) before (count_one c)
      (trace_call_again now frame depth p before c e (h now) (k now)) h k
    ∙ ap (λ (n : ℕ). before ++ with_ncalls n c ∷ []) (omega arith)

-- A line that no recorded call has, at one depth, and that is called once and then once for each of `times`:
-- one call is added at the end, and its `ncalls` is one less than the number of the calls.
pub trace_calls-ncalls :
    (now : ℕ) (times : List ℕ) (frame : Frame) (depth : ℕ) (p : Profile)
    → has_call (create_call_from now frame depth) p.calls ≡ false
    → (trace_calls (now ∷ times) frame depth p).calls
      ≡ p.calls ++ with_ncalls (length times) (create_call_from now frame depth) ∷ []
unfolding trace_call
trace_calls-ncalls now times frame depth p h =
    let new = create_call_from now frame depth in
    trace_calls_from times frame depth (trace_call now frame depth p) p.calls new (rw h refl)
      (λ later. has_call-append new p.calls h) (λ later. same_call_refl new)
    ∙ ap (λ (n : ℕ). p.calls ++ with_ncalls n new ∷ []) (omega arith)
