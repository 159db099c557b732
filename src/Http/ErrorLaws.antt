-- ===== src/Http/ErrorLaws.antt =====
-- levin/core/parsers/http_simple.py: what `handle_request` can return and raise, on any bytes.
use levin.Prelude.{
  ◌≡◌, ◌⊎◌, inl, inr, refl, Bool, true, false, Option, none, some, List, [], ◌∷◌, arith, is_empty,
  not, ◌&&◌, Bool-cases, Option-cases, if◌then◌else◌,
}
use levin.Bytes.{Bytes, codes, split, split_once, splitlines}
use levin.Result.{Error, Result, ok, err, parse_error, value_error, ◌>>=◌}
use levin.Common.{Request, new_request}
use levin.Http.{
  Parsed, Reading, unread, handle_request, parse_first_line, three_segments, parse_header,
  read_line, read_lines, read_first, read_content, finish_reading,
}

abbrev pub IsExpected : Error → Type 0
IsExpected e = (e ≡ parse_error) ⊎ (e ≡ value_error)

abbrev Fails {ℓ} : {A : Type ℓ} → Result A → Type 0
Fails (ok a) = Unit
Fails (err e) = IsExpected e

three_segments-Fails : (segments : List Bytes) → Fails (three_segments segments)
unfolding three_segments
three_segments-Fails (a ∷ b ∷ c ∷ []) = ground arith
three_segments-Fails _ = inl refl

bind-Fails {ℓ κ} :
    {A : Type ℓ} {B : Type κ} (m : Result A) (f : A → Result B)
    → Fails m
    → ((a : A) → Fails (f a))
    → Fails (m >>= f)
bind-Fails (ok a) f h k = k a
bind-Fails (err e) f h k = h

parse_header-Fails : (line : Bytes) → Fails (parse_header line)
unfolding parse_header
parse_header-Fails line = elim (Option-cases (split_once 58 line)) [
  | inl e ↦ rw (e, parse_header) (inr refl)
  | inr (found, e) ↦ rw (e, parse_header) tt
]

read_content-Fails :
    (line : Bytes) (body : Option Bytes) (r : Reading) → Fails (read_content line body r)
unfolding read_content
read_content-Fails line none r =
    bind-Fails (parse_header line) _ (parse_header-Fails line) (λ h. tt)
read_content-Fails line (some body) r = tt

read_first-Fails : (line : Bytes) (r : Reading) → Fails (read_first line r)
unfolding read_first parse_first_line
read_first-Fails line r =
    bind-Fails (three_segments (split 32 line)) _ (three_segments-Fails (split 32 line)) (λ h. tt)

if-Fails {ℓ} :
    {A : Type ℓ} (b : Bool) (m n : Result A) → Fails m → Fails n → Fails (if b then m else n)
if-Fails true m n h k = h
if-Fails false m n h k = k

read_line-Fails : (line : Bytes) (r : Reading) → Fails (read_line line r)
unfolding read_line
read_line-Fails line r =
    if-Fails (is_empty r.path) _ _ (read_first-Fails line r)
      (if-Fails (is_empty line) _ _ tt (read_content-Fails line r.body r))

read_lines-Fails : (lines : List Bytes) (r : Reading) → Fails (read_lines lines r)
unfolding read_lines
read_lines-Fails [] r = tt
read_lines-Fails (line ∷ lines) r =
    bind-Fails (read_line line r) _ (read_line-Fails line r) (λ next. read_lines-Fails lines next)

-- One complete request and nothing else, or one of the two exceptions.
abbrev pub IsOutcome : Result Parsed → Type 0
IsOutcome (ok p) =
    (r : Request) × (p.requests ≡ r ∷ [])
    × (p.to_send ≡ some [])
    × (p.close ≡ false)
    × (is_empty r.raw_path ≡ false)
    × (is_empty r.method ≡ false)
    × (is_empty r.protocol ≡ false)
    × (r.stream ≡ 0)
    × (r.scope ≡ [])
IsOutcome (err e) = IsExpected e

finish_reading-IsOutcome : (r : Reading) → IsOutcome (finish_reading r)
unfolding finish_reading new_request
finish_reading-IsOutcome r =
    elim (Bool-cases
      (not (is_empty r.path) && (not (is_empty r.method) && not (is_empty r.protocol)))) [
        | inl e ↦ rw e (
          new_request r.path r.method r.body r.headers r.protocol 0 (codes "http"),
          refl,
          refl,
          refl,
          ground arith,
          ground arith,
          ground arith,
          refl,
          refl,
        )
        | inr e ↦ rw e (inl refl)
      ]

bind-IsOutcome : (m : Result Reading) → Fails m → IsOutcome (m >>= finish_reading)
bind-IsOutcome (ok r) h = finish_reading-IsOutcome r
bind-IsOutcome (err e) h = h

-- On any bytes the parser either raises ParseError or ValueError, or returns exactly one request, with
-- no bytes to send and no close; its path, method and protocol are not empty, and its scope is.
pub handle_request-IsOutcome : (input : Bytes) → IsOutcome (handle_request input)
unfolding handle_request
handle_request-IsOutcome input =
    bind-IsOutcome (read_lines (splitlines input) unread)
      (read_lines-Fails (splitlines input) unread)
