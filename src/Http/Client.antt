-- ===== src/Http/Client.antt =====
-- levin/core/parsers/http_simple.py, handle_response: the headers as a client reads them off the wire.
use levin.Prelude.{
  ℕ, ◌==◌, Bool, ◌||◌, ◌≡◌, refl, ap, ◌∙◌, false, Bool-cases, Option, none, some, List, [], ◌∷◌,
  ◌++◌, map, append_assoc, arith, All, is_empty, inl, inr, ◌⊎◌, if◌then◌else◌,
}
use levin.Bytes.{
  Bytes, codes, eqb, lower, lower_byte, capitalize, decimal, join, split_once, lstrip, splitlines,
}
use levin.Bytes.Equality.{eqb_iff, lower-capitalize}
use levin.Bytes.Lines.{IsLine, splitlines-line}
use levin.Bytes.Split.{Lacks, split_once-append, StartsClean, lstrip_clean}
use levin.Bytes.Decimal.{IsDigit, decimal-IsDigit, number_from, number_from-decimal}
use levin.Dict.{Dict, put}
use levin.Http.{header_name, header_line, crlf}

-- The number of the first Content-Length, of any case, among the lines up to an empty one.
unfoldable pub length_in : List Bytes → Option ℕ
length_in [] = none
length_in (line ∷ lines) =
    let later = length_in lines in
    if is_empty line then none else elim (split_once 58 line) [
      | none ↦ later
      | some (name, content) ↦
          if eqb (lower name) (codes "content-length")
          then some (number_from 0 (lstrip content))
          else later
    ]

-- What a client takes as the length of the body: it reads the lines behind the status line.
abbrev pub after_first : List Bytes → List Bytes
after_first [] = []
after_first (line ∷ lines) = lines

abbrev pub announced_length : Bytes → Option ℕ
announced_length bytes = length_in (after_first (splitlines bytes))

-- No colon, and Content-Length in no other spelling
abbrev pub IsName : Bytes → Type 0
IsName k =
    Lacks 58 k × ((k ≡ codes "Content-Length") ⊎ (eqb (lower k) (codes "content-length") ≡ false))

abbrev pub AreNames : Dict Bytes → Type 0
AreNames headers = All (λ h. IsName h.0) headers

map_lower-Lacks : (s : Bytes) → Lacks 58 s → Lacks 58 (map lower_byte s)
map_lower-Lacks [] h = tt
map_lower-Lacks (c ∷ s) (h, hs) = (ground arith, map_lower-Lacks s hs)

capitalize-Lacks : (s : Bytes) → Lacks 58 s → Lacks 58 (capitalize s)
unfolding capitalize
capitalize-Lacks [] h = tt
capitalize-Lacks (c ∷ s) (h, hs) = (ground arith, map_lower-Lacks s hs)

-- For names that are written in the program.
abbrev has_colon : Bytes → Bool
has_colon [] = false
has_colon (c ∷ s) = (c == 58) || has_colon s

pub has_colon_sound : (s : Bytes) → has_colon s ≡ false → Lacks 58 s
has_colon_sound [] h = tt
has_colon_sound (c ∷ s) h = (ground arith, has_colon_sound s (ground arith))

header_name-Lacks : (k : Bytes) → Lacks 58 k → Lacks 58 (header_name k)
unfolding header_name
header_name-Lacks k h = elim (Bool-cases (eqb k (codes "content-type"))) [
  | inl e ↦ rw e (has_colon_sound (codes "Content-Type") refl)
  | inr e ↦ rw e (capitalize-Lacks k h)
]

lower-header_name : (k : Bytes) → lower (header_name k) ≡ lower k
unfolding header_name
lower-header_name k = elim (Bool-cases (eqb k (codes "content-type"))) [
  | inl e ↦ rw (e, (eqb_iff k (codes "content-type")).0 e) (unfold lower in refl)
  | inr e ↦ rw e (lower-capitalize k)
]

digits-StartsClean : (s : Bytes) → All IsDigit s → StartsClean s
digits-StartsClean [] h = tt
digits-StartsClean (c ∷ s) h = ground (arith, h.0)

lstrip-decimal : (n : ℕ) → lstrip (32 ∷ decimal n) ≡ decimal n
unfolding lstrip
lstrip-decimal n = lstrip_clean (decimal n) (digits-StartsClean (decimal n) (decimal-IsDigit n))

split_once-header_line :
    (k v : Bytes) → Lacks 58 k → split_once 58 (header_line (k, v)) ≡ some (header_name k, 32 ∷ v)
unfolding header_line
split_once-header_line k v h = split_once-append 58 (header_name k) (32 ∷ v) (header_name-Lacks k h)

header_line-filled : (k v : Bytes) → is_empty (header_line (k, v)) ≡ false
unfolding header_line
header_line-filled k v = filled (header_name k)
  where
    filled : (s : Bytes) → is_empty (s ++ 58 ∷ 32 ∷ v) ≡ false
    filled [] = refl
    filled (c ∷ s) = refl

length_in-found :
    (n : ℕ) (lines : List Bytes)
    → length_in (header_line (codes "Content-Length", decimal n) ∷ lines) ≡ some n
unfolding length_in
length_in-found n lines =
    let name = codes "Content-Length" in
    rw
      (
        header_line-filled name (decimal n),
        split_once-header_line name (decimal n) (has_colon_sound (codes "Content-Length") refl),
        lower-header_name name,
        lstrip-decimal n,
        number_from-decimal n,
      )
      (unfold lower in refl)

length_in-skip :
    (k v : Bytes) (lines : List Bytes)
    → Lacks 58 k
    → eqb (lower k) (codes "content-length") ≡ false
    → length_in (header_line (k, v) ∷ lines) ≡ length_in lines
unfolding length_in
length_in-skip k v lines h other =
    rw (header_line-filled k v, split_once-header_line k v h, lower-header_name k, other) refl

-- The length that `put` wrote is the one that is found.
pub length_in-put :
    (n : ℕ) (headers : Dict Bytes) (lines : List Bytes)
    → AreNames headers
    → length_in (map header_line (put (codes "Content-Length") (decimal n) headers) ++ lines)
      ≡ some n
unfolding put
length_in-put n [] lines h = length_in-found n lines
length_in-put n ((k, v) ∷ headers) lines ((solid, inl e), hs) = rw e (length_in-found n _)
length_in-put n ((k, v) ∷ headers) lines ((solid, inr other), hs) =
    elim (Bool-cases (eqb k (codes "Content-Length"))) [
      | inl e ↦ rw (e, (eqb_iff k (codes "Content-Length")).0 e) (length_in-found n _)
      | inr e ↦ rw e (length_in-skip k v _ solid other ∙ length_in-put n headers lines hs)
    ]

-- Joined lines are split again, with the line end behind them.
pub splitlines-join :
    (line : Bytes) (lines : List Bytes) (s : Bytes)
    → All IsLine (line ∷ lines)
    → splitlines (join crlf (line ∷ lines) ++ (crlf ++ s)) ≡ (line ∷ lines) ++ splitlines s
unfolding join
splitlines-join line [] s (h, _) = splitlines-line line s h
splitlines-join line (next ∷ lines) s (h, hs) =
    ap splitlines (append_assoc line (crlf ++ join crlf (next ∷ lines)) (crlf ++ s))
    ∙ splitlines-line line (join crlf (next ∷ lines) ++ (crlf ++ s)) h
    ∙ ap (λ (x : List Bytes). line ∷ x) (splitlines-join next lines s hs)
