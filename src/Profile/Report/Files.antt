-- ===== src/Profile/Report/Files.antt =====
-- levin/utils/profile.py: the files that `print_result` announces.
use levin.Prelude.{
  ℕ, ◌<◌, ◌≤◌, ◌≡◌, refl, ap, ◌∙◌, true, Option, none, some, List, [], ◌∷◌, ◌==◌, ==_iff, arith,
  map, All, Bool-cases, inl, inr,
}
use levin.Bytes.{Str}
use levin.Result.{Result, ok, err, ◌>>=◌}
use levin.Profile.{CallResult, Profile}
use levin.Profile.Lines.{Lines, get_lines, precedes, sorted, values, add_functions, put_calls}
use levin.Profile.Lines.Order.{IsSorted, sorted-IsSorted}
use levin.Profile.Report.{
  Printed, print_line, print_lines, print_result, is_measured, announced, under, IsIncreasing,
}

precedes-filename : (c d : CallResult) → precedes c d ≡ true → c.filename ≤ d.filename
unfolding precedes
precedes-filename c d h = ground arith

-- No line's file is in front of this one.
abbrev IsBehind : ℕ → List CallResult → Type 0
IsBehind f lines = All (λ d. f ≤ d.filename) lines

IsBehind-weaken : (f g : ℕ) (lines : List CallResult) → f ≤ g → IsBehind g lines → IsBehind f lines
IsBehind-weaken f g [] h k = tt
IsBehind-weaken f g (d ∷ lines) h k = (omega (arith, h, k.0), IsBehind-weaken f g lines h k.1)

IsSorted-tail : (c : CallResult) (lines : List CallResult) → IsSorted (c ∷ lines) → IsSorted lines
IsSorted-tail c [] h = tt
IsSorted-tail c (d ∷ lines) h = h.1

IsSorted-IsBehind :
    (c : CallResult) (lines : List CallResult) → IsSorted (c ∷ lines) → IsBehind c.filename lines
IsSorted-IsBehind c [] h = tt
IsSorted-IsBehind c (d ∷ lines) h =
    let le = precedes-filename c d h.0 in
    (le, IsBehind-weaken c.filename d.filename lines le (IsSorted-IsBehind d lines h.1))

abbrev IsFrom : Option ℕ → List CallResult → Type 0
IsFrom none lines = Unit
IsFrom (some f) lines = IsBehind f lines

abbrev IsAfter : Option ℕ → List ℕ → Type 0
IsAfter none files = Unit
IsAfter (some f) files = All (λ g. f < g) files

IsAfter-weaken :
    (f g : ℕ) (files : List ℕ) → f ≤ g → All (λ x. g < x) files → All (λ x. f < x) files
IsAfter-weaken f g [] h k = tt
IsAfter-weaken f g (x ∷ files) h k = (omega (arith, h, k.0), IsAfter-weaken f g files h k.1)

module _ (getline : ℕ → ℕ → Str) where
  announced-print_line :
      (c : CallResult) (rest : List Printed)
      → announced (print_line getline c ∷ rest) ≡ announced rest
  unfolding print_line
  announced-print_line c rest = elim (Bool-cases (is_measured c)) [
    | inl e ↦ rw e refl
    | inr e ↦ rw e refl
  ]

  under-print_line :
      (before : Option ℕ) (c : CallResult) (rest : List Printed)
      → under before (print_line getline c ∷ rest) ≡ (before, c.lineno) ∷ under before rest
  unfolding print_line
  under-print_line before c rest = elim (Bool-cases (is_measured c)) [
    | inl e ↦ rw e refl
    | inr e ↦ rw e refl
  ]

  under-print_lines :
      (before : Option ℕ) (lines : List CallResult)
      → under before (print_lines getline before lines)
        ≡ map (λ c. (some c.filename, c.lineno)) lines
  unfolding print_lines
  under-print_lines before [] = refl
  under-print_lines none (c ∷ lines) =
      under-print_line (some c.filename) c (print_lines getline (some c.filename) lines)
      ∙ ap (λ x. (some c.filename, c.lineno) ∷ x) (under-print_lines (some c.filename) lines)
  under-print_lines (some f) (c ∷ lines) =
      let next =
        under-print_line (some c.filename) c (print_lines getline (some c.filename) lines)
        ∙ ap (λ x. (some c.filename, c.lineno) ∷ x) (under-print_lines (some c.filename) lines) in
      elim (Bool-cases (f == c.filename)) [
        | inl e ↦
            let same : f ≡ c.filename = (==_iff f c.filename).0 e in
            rw e (
              ap
                (λ (g : ℕ).
                  under (some g)
                    (print_line getline c ∷ print_lines getline (some c.filename) lines))
                same
              ∙ next)
        | inr e ↦ rw e next
      ]

  announced-IsIncreasing :
      (before : Option ℕ) (lines : List CallResult)
      → IsSorted lines
      → IsFrom before lines
      → IsIncreasing (announced (print_lines getline before lines))
        × IsAfter before (announced (print_lines getline before lines))
  unfolding print_lines
  announced-IsIncreasing none [] s h = (tt, tt)
  announced-IsIncreasing (some f) [] s h = (tt, tt)
  announced-IsIncreasing none (c ∷ lines) s h =
      let rest = print_lines getline (some c.filename) lines in
      let (inc, after) =
        announced-IsIncreasing (some c.filename) lines (IsSorted-tail c lines s)
          (IsSorted-IsBehind c lines s) in
      rw (announced-print_line c rest) ((after, inc), tt)
  announced-IsIncreasing (some f) (c ∷ lines) s h =
      let rest = print_lines getline (some c.filename) lines in
      let (inc, after) =
        announced-IsIncreasing (some c.filename) lines (IsSorted-tail c lines s)
          (IsSorted-IsBehind c lines s) in
      elim (Bool-cases (f == c.filename)) [
        | inl e ↦
            let same : f ≡ c.filename = (==_iff f c.filename).0 e in
            rw (e, announced-print_line c rest)
              (inc, IsAfter-weaken f c.filename (announced rest) h.0 after)
        | inr e ↦
            let less : f < c.filename = ground (arith, e, h.0) in
            rw (e, announced-print_line c rest)
              ((after, inc), (less, IsAfter-weaken f c.filename (announced rest) h.0 after))
      ]

  get_lines-IsSorted :
      (memory : CallResult → Result ℕ) (p : Profile) (lines : List CallResult)
      → get_lines memory p ≡ ok lines
      → IsSorted lines
  unfolding get_lines
  get_lines-IsSorted memory p lines e =
      from (add_functions memory 1 p.functions_code p.target_func (put_calls p.calls [])) e
    where
      from :
          (r : Result Lines)
          → (r >>= λ found. ok (sorted (values found))) ≡ ok lines
          → IsSorted lines
      from (err x) k = cc k
      from (ok found) k =
          let same : sorted (values found) ≡ lines = cc k in
          (rw same at (sorted-IsSorted (values found)))

  -- Where `get_lines` returns, `print_result` prints all its lines, in its order, and the file that was
  -- announced last in front of each line is that line's file; the files are announced in increasing order, so
  -- that none is announced twice.
  pub print_result-announces :
      (memory : CallResult → Result ℕ) (p : Profile) (lines : List CallResult)
      → get_lines memory p ≡ ok lines
      → (printed : List Printed) × (print_result getline memory p ≡ ok printed)
        × (under none printed ≡ map (λ c. (some c.filename, c.lineno)) lines)
        × IsIncreasing (announced printed)
  unfolding print_result
  print_result-announces memory p lines e = (
    print_lines getline none lines,
    rw e refl,
    under-print_lines none lines,
    (announced-IsIncreasing none lines (get_lines-IsSorted memory p lines e) tt).0,
  )
