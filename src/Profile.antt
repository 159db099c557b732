-- ===== src/Profile.antt =====
-- levin/utils/profile.py: `SimpleProfile`, the calls that it records and the functions that it follows. The
-- name of a file, and of a function, is a number; numbers of files are ordered as the names are. Of an event
-- whose tracing raises, only the exception is modelled.
pub mod Lines
pub mod Session
pub mod Report
pub mod Targets
pub mod Bounds
pub mod Forgotten
pub mod Calls
pub mod Tests
use levin.Prelude.{
  ℕ, zero, suc, ◌+◌, Bool, true, false, not, ◌&&◌, ◌||◌, Option, none, some, List, [], ◌∷◌, ◌++◌,
  ◌==◌, leb, if◌then◌else◌, length,
}
use levin.Bytes.{Str}
use levin.Result.{Result, ok, err, attribute_error, ◌>>=◌}

-- What is used of a code object; the three fields are its alias.
pub record Code : Type 0 where
  pub filename : ℕ
  pub firstlineno : ℕ
  pub name : ℕ

-- _get_code_alias(code) == _get_code_alias(other)
abbrev pub same_code : Code → Code → Bool
same_code a b =
    (a.filename == b.filename) && ((a.firstlineno == b.firstlineno) && (a.name == b.name))

-- A frame and those that `f_back` leads to, from the innermost on; the empty list is None.
pub record Frame : Type 0 where
  pub code : Code
  pub lineno : ℕ

-- The events of `sys.setprofile`.
pub data Event : Type 0 where
  call return c_call c_return c_exception : Event

-- event in self.C_CALLS
abbrev pub is_c_event : Event → Bool
is_c_event call = false
is_c_event return = false
is_c_event _ = true

-- event in self.CALLS
abbrev pub is_call_event : Event → Bool
is_call_event call = true
is_call_event c_call = true
is_call_event _ = false

-- CallResult
pub record CallResult : Type 0 where
  pub lineno : ℕ
  pub filename : ℕ
  pub caller_lineno : ℕ
  pub depth : ℕ
  pub start : ℕ
  pub end : ℕ
  pub ncalls : ℕ
  pub mem : ℕ

-- The source of a function is its lines; `functions_code` is a dict by file and first line.
pub record Profile : Type 0 where
  pub calls : List CallResult
  pub depth : ℕ
  pub target_func : List Code
  pub functions_code : List ((ℕ × ℕ) × List Str)

-- SimpleProfile.__init__, of what the recording uses
unfoldable pub new_profile : ℕ → Profile
new_profile depth = record { calls = []; depth = depth; target_func = []; functions_code = [] }

-- code in self._target_func
unfoldable pub has_target : Code → List Code → Bool
has_target code [] = false
has_target code (other ∷ codes) = same_code other code || has_target code codes

-- [index for index, func in enumerate(self._target_func) if func == code_alias], counted from `i`
unfoldable pub indexes_from : ℕ → Code → List Code → List ℕ
indexes_from i code [] = []
indexes_from i code (other ∷ codes) =
    if same_code other code
    then i ∷ indexes_from (i + 1) code codes
    else indexes_from (i + 1) code codes

-- _get_event_frame(event, frame)
unfoldable pub get_event_frame : Event → List Frame → List Frame
get_event_frame event [] = []
get_event_frame event (frame ∷ back) = if is_c_event event then frame ∷ back else back

save_source : ℕ × ℕ → List Str → List ((ℕ × ℕ) × List Str) → List ((ℕ × ℕ) × List Str)
save_source (f, l) lines [] = ((f, l), lines) ∷ []
save_source (f, l) lines (((f', l'), old) ∷ sources) =
    if (f' == f) && (l' == l)
    then ((f', l'), lines) ∷ sources
    else ((f', l'), old) ∷ save_source (f, l) lines sources

-- _get_function(filename, lineno)
unfoldable pub get_function : ℕ → ℕ → List ((ℕ × ℕ) × List Str) → Option (List Str)
get_function f l [] = none
get_function f l (((f', l'), lines) ∷ sources) =
    if (f' == f) && (l' == l) then some lines else get_function f l sources

-- The loop of `_get_depth_at_recursion`: AttributeError where there is no frame behind.
unfoldable pub count_same : List Frame → Result ℕ
count_same [] = err attribute_error
count_same (frame ∷ []) = err attribute_error
count_same (frame ∷ mother ∷ back) = elim (same_code frame.code mother.code) [
  | true ↦ do n ← count_same (mother ∷ back); ok (suc n)
  | false ↦ ok 0
]

depth_or_none : ℕ → ℕ → Option ℕ
depth_or_none recursion_depth depth =
    if leb recursion_depth depth || (depth == 0) then none else some depth

-- _get_depth_at_recursion(mother_frame, recursion_depth)
unfoldable pub get_depth_at_recursion : List Frame → ℕ → Result (Option ℕ)
unfolding count_same depth_or_none
get_depth_at_recursion back recursion_depth = do
  depth ← count_same back
  ok (depth_or_none recursion_depth depth)

depth_at : List Frame → List ℕ → Result (Option ℕ)
unfolding get_depth_at_recursion
depth_at back [] = ok none
depth_at back (index ∷ []) = ok (some (index + 1))
depth_at back (index ∷ other ∷ indexes) = get_depth_at_recursion back (length indexes + 2)

-- _is_the_same_call(call_1, call_2)
abbrev pub same_call : CallResult → CallResult → Bool
same_call a b = (a.depth == b.depth) && ((a.filename == b.filename) && (a.lineno == b.lineno))

-- _create_call_from(frame, depth), at the time `now`
abbrev pub create_call_from : ℕ → Frame → ℕ → CallResult
create_call_from now frame depth = record {
  lineno = frame.lineno;
  filename = frame.code.filename;
  caller_lineno = frame.code.firstlineno;
  depth = depth;
  start = now;
  end = 0;
  ncalls = 0;
  mem = 0;
}

-- Whether `_get_the_same_call` finds one.
unfoldable pub has_call : CallResult → List CallResult → Bool
has_call new [] = false
has_call new (c ∷ calls) = same_call new c || has_call new calls

-- A write to the first call that is the same.
unfoldable pub update_call :
    CallResult → (CallResult → CallResult) → List CallResult → List CallResult
update_call new f [] = []
update_call new f (c ∷ calls) = if same_call new c then f c ∷ calls else c ∷ update_call new f calls

abbrev count_one : CallResult → CallResult
count_one c = record c { ncalls = c.ncalls + 1 }

-- _trace_call(target_frame, depth)
unfoldable pub trace_call : ℕ → Frame → ℕ → Profile → Profile
unfolding has_call update_call
trace_call now frame depth p =
    let new = create_call_from now frame depth in
    record p {
      calls =
          if has_call new p.calls then update_call new count_one p.calls else p.calls ++ new ∷ [];
    }

-- The other branch of `_trace`: AttributeError where no such call was recorded.
unfoldable pub trace_return : ℕ → Frame → ℕ → Profile → Result Profile
unfolding has_call update_call
trace_return now frame depth p =
    let new = create_call_from now frame depth in
    if has_call new p.calls
    then ok (record p { calls = update_call new (λ c. record c { end = now }) p.calls })
    else err attribute_error

-- `inspect.getsource`, which may raise, is a parameter.
module _ (source : Code → Result (List Str)) where
  -- The append to `_target_func`, and _save_function(code)
  unfoldable pub follow : Code → Profile → Result Profile
  unfolding save_source
  follow code p = do
    lines ← source code
    ok (record p {
      target_func = p.target_func ++ code ∷ [];
      functions_code = save_source (code.filename, code.firstlineno) lines p.functions_code;
    })

  -- add_target(func)
  unfoldable pub add_target : Code → Profile → Result Profile
  unfolding follow
  add_target code p = follow code p

  -- `frame.f_back.f_code`, once the number of targets was compared
  save_behind : Frame → List Frame → Profile → Result Profile
  unfolding follow has_target
  save_behind frame [] p = err attribute_error
  save_behind frame (mother ∷ back) p =
      if has_target mother.code p.target_func then follow frame.code p else ok p

  -- _save_frame(frame)
  unfoldable pub save_frame : Frame → List Frame → Profile → Result Profile
  unfolding save_behind
  save_frame frame back p =
      if length p.target_func == p.depth then ok p else save_behind frame back p

  depth_in : Frame → List Frame → Profile → Result (Option ℕ × Profile)
  unfolding depth_at indexes_from
  depth_in frame back p = do
    depth ← depth_at (frame ∷ back) (indexes_from 0 frame.code p.target_func)
    ok (depth, p)

  current_depth : List Frame → Profile → Result (Option ℕ × Profile)
  unfolding save_frame depth_in
  current_depth [] p = err attribute_error
  current_depth (frame ∷ back) p = do p' ← save_frame frame back p; depth_in frame back p'

  -- _get_current_depth(event, frame)
  unfoldable pub get_current_depth : Event → List Frame → Profile → Result (Option ℕ × Profile)
  unfolding current_depth get_event_frame
  get_current_depth event stack p = current_depth (get_event_frame event stack) p

  record_event : ℕ → Event → List Frame → Option ℕ × Profile → Result Profile
  unfolding trace_call trace_return
  record_event now event back (none, p) = ok p
  record_event now event [] (some depth, p) = err attribute_error
  record_event now event (frame ∷ back) (some depth, p) =
      if is_call_event event
      then ok (trace_call now frame depth p)
      else trace_return now frame depth p

  -- _trace(frame, event, arg); no frame, no effect.
  unfoldable pub trace : ℕ → Event → List Frame → Profile → Result Profile
  unfolding record_event get_current_depth
  trace now event [] p = ok p
  trace now event (frame ∷ back) p = do
    found ← get_current_depth event (frame ∷ back) p
    record_event now event (get_event_frame event (frame ∷ back)) found
