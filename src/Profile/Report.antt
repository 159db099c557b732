-- ===== src/Profile/Report.antt =====
-- levin/utils/profile.py: `CallResult.time`, `func_line` and `code`, and `print_result`. The lines of a file, by
-- `linecache`, are a parameter; what is printed is its parts.
pub mod Files
use levin.Prelude.{
  ℕ, ◌-◌, ◌<◌, ◌≤◌, ◌≡◌, refl, ap, ◌∙◌, Bool, true, false, not, ◌||◌, Option, none, some, List, [],
  ◌∷◌, ◌++◌, ◌==◌, ==_iff, ltb, leb, leb→le, if◌then◌else◌, arith, map, All, Bool-cases, inl, inr,
}
use levin.Bytes.{Str, strip}
use levin.Result.{Result, ok, err, ◌>>=◌}
use levin.Profile.{CallResult, Profile}
use levin.Profile.Lines.{get_lines, precedes}
use levin.Profile.Lines.Order.{IsSorted}

-- A difference, which may be negative.
pub data Difference : Type 0 where
  plus minus : ℕ → Difference

unfoldable pub difference : ℕ → ℕ → Difference
difference a b = if leb b a then plus (a - b) else minus (b - a)

-- CallResult.time
abbrev pub time : CallResult → Difference
time c = difference c.end c.start

-- CallResult.func_line
abbrev pub func_line : CallResult → Difference
func_line c = difference c.lineno c.caller_lineno

-- `line.mem or line.time`
abbrev pub is_measured : CallResult → Bool
is_measured c = not (c.mem == 0) || not (c.end == c.start)

-- line.rstrip("\n")
unfoldable pub rstrip_newlines : Str → Str
rstrip_newlines [] = []
rstrip_newlines (x ∷ s) = elim (rstrip_newlines s) [
  | [] ↦ if x == 10 then [] else x ∷ []
  | y ∷ rest ↦ x ∷ y ∷ rest
]

-- What one `print` writes: "--> {filename}", "{lineno}: {code} \t <- {time}s; {mem}B nc {ncalls}", or
-- "{lineno}: {code}".
pub data Printed : Type 0 where
  file : ℕ → Printed
  measured : (lineno : ℕ) → (code : Str) → (spent : Difference) → (mem ncalls : ℕ) → Printed
  unmeasured : (lineno : ℕ) → (code : Str) → Printed

module _ (getline : ℕ → ℕ → Str) where
  -- CallResult.code
  unfoldable pub code : CallResult → Str
  unfolding rstrip_newlines
  code c = rstrip_newlines (getline c.filename c.lineno)

  unfoldable pub print_line : CallResult → Printed
  unfolding code difference
  print_line c =
      if is_measured c
      then measured c.lineno (code c) (time c) c.mem c.ncalls
      else unmeasured c.lineno (code c)

  -- `filename != line.filename`, where it is None at first
  abbrev pub is_new : Option ℕ → ℕ → Bool
  is_new none f = true
  is_new (some g) f = not (g == f)

  -- The loop of `print_result`, with the file of the line before.
  unfoldable pub print_lines : Option ℕ → List CallResult → List Printed
  unfolding print_line
  print_lines before [] = []
  print_lines before (c ∷ lines) =
      let rest = print_line c ∷ print_lines (some c.filename) lines in
      if is_new before c.filename then file c.filename ∷ rest else rest

  -- print_result(profile)
  unfoldable pub print_result : (CallResult → Result ℕ) → Profile → Result (List Printed)
  unfolding print_lines get_lines
  print_result memory profile = do lines ← get_lines memory profile; ok (print_lines none lines)

-- The files that are announced, in order.
abbrev pub announced : List Printed → List ℕ
announced [] = []
announced (file f ∷ printed) = f ∷ announced printed
announced (measured l c t m n ∷ printed) = announced printed
announced (unmeasured l c ∷ printed) = announced printed

-- The lines that are printed, in order, each with the file that was announced last in front of it.
abbrev pub under : Option ℕ → List Printed → List (Option ℕ × ℕ)
under before [] = []
under before (file f ∷ printed) = under (some f) printed
under before (measured l c t m n ∷ printed) = (before, l) ∷ under before printed
under before (unmeasured l c ∷ printed) = (before, l) ∷ under before printed

-- Each file is behind those before it.
abbrev pub IsIncreasing : List ℕ → Type 0
IsIncreasing [] = Unit
IsIncreasing (f ∷ files) = All (λ g. f < g) files × IsIncreasing files
