-- ===== src/Profile/Tests.antt =====
-- levin/utils/profile.py: a function of file 1 that calls another one, and that is profiled.
use levin.Prelude.{inl, ℕ, ◌≡◌, refl, true, false, ◌||◌, some, List, [], ◌∷◌, map, arith, none}
use levin.Bytes.{Str, codes}
use levin.Result.{Result, ok, err, raised}
use levin.Profile.{
  Code, Frame, call, c_call, Profile, CallResult, trace, add_target, new_profile, create_call_from,
  get_function, get_event_frame,
}
use levin.Profile.Targets.{IsBounded}
use levin.Profile.Bounds.{trace-IsBounded}
use levin.Profile.Lines.{Key, key_of, get_lines, Statistic, same_key, is_blank}
use levin.Profile.Lines.Keys.{Returns, member}
use levin.Profile.Lines.Order.{IsSorted}
use levin.Profile.Lines.Coverage.{get_lines_complete}
use levin.Profile.Report.{Printed, print_result, announced, under, IsIncreasing}
use levin.Profile.Report.Files.{print_result-announces}
use levin.Profile.Session.{own_trace, foreign, System, Session, run, new_session, run-restores}

abbrev main : Code
main = record { filename = 1; firstlineno = 10; name = 1 }

abbrev inner : Code
inner = record { filename = 1; firstlineno = 20; name = 2 }

abbrev at_line : Code → ℕ → Frame
at_line code lineno = record { code = code; lineno = lineno }

abbrev source : Code → Result (List Str)
source code = ok (codes "def f():" ∷ codes "  g()" ∷ codes " " ∷ codes "  h()" ∷ [])

abbrev followed : Profile
followed = record {
  calls = [];
  depth = 3;
  target_func = main ∷ [];
  functions_code =
      ((1, 10), codes "def f():" ∷ codes "  g()" ∷ codes " " ∷ codes "  h()" ∷ []) ∷ [];
}

abbrev both : Profile
both = record followed { target_func = main ∷ inner ∷ [] }

added : add_target source main (new_profile 3) ≡ ok followed
unfolding add_target new_profile
added = refl

-- A call in the function that is profiled is recorded at depth 1.
recorded :
    trace source 5 call (at_line inner 20 ∷ at_line main 11 ∷ at_line inner 1 ∷ []) followed
    ≡ ok (record followed { calls = create_call_from 5 (at_line main 11) 1 ∷ [] })
unfolding trace
recorded = refl

lines_found :
    get_lines (λ c. ok 7) followed
    ≡ ok (
        record (create_call_from 0 (at_line main 11) 1) { mem = 7 }
        ∷ record (create_call_from 0 (at_line main 13) 1) { mem = 7 }
        ∷ [])
unfolding get_lines get_function is_blank
lines_found = refl

trace-IsBounded_example :
    Returns IsBounded (trace source 5 c_call (at_line inner 21 ∷ at_line main 11 ∷ []) followed)
unfolding get_event_frame
trace-IsBounded_example =
    trace-IsBounded source (λ code. tt) 5 c_call (at_line inner 21 ∷ at_line main 11 ∷ []) followed
      (omega arith, omega arith) (inl refl)

get_lines_complete_example :
    Returns
      (λ (lines : List CallResult).
        IsSorted lines
        × ((k : Key)
            → member k (map key_of lines)
              ≡ (member k [] || member k ((11, 1, 1) ∷ (13, 1, 1) ∷ []))))
      (get_lines (λ c. ok 7) followed)
unfolding get_function same_key is_blank
get_lines_complete_example = get_lines_complete (λ c. ok 7) followed (λ c. tt) (tt, tt)

abbrev statistics : ℕ → ℕ → ℕ → List Statistic
statistics snapshot filename lineno = []

abbrev failing : Profile → Result ℕ × Profile
failing p = (err (raised 1), p)

abbrev used : Session ℕ
used = record (new_session statistics (λ w. ok 0) 3 false) { stopped = true }

abbrev before : System
before = record { profile_function = some (foreign 4); tracing = false }

-- A second run of one profile leaves its profile function installed.
run-restores_example :
    (run statistics (λ w. ok 0) failing source main used before).system.profile_function
    ≡ some own_trace
unfolding new_session new_profile
run-restores_example =
    run-restores statistics (λ w. ok 0) failing source main used before followed added

abbrev x_lines : ℕ → ℕ → Str
x_lines filename lineno = codes "x\n"

print_result-announces_example :
    (printed : List Printed) × (print_result x_lines (λ c. ok 7) followed ≡ ok printed)
    × (under none printed ≡ (some 1, 11) ∷ (some 1, 13) ∷ [])
    × IsIncreasing (announced printed)
print_result-announces_example =
    print_result-announces x_lines (λ c. ok 7) followed
      (record (create_call_from 0 (at_line main 11) 1) { mem = 7 }
        ∷ record (create_call_from 0 (at_line main 13) 1) { mem = 7 }
        ∷ [])
      lines_found
