-- ===== src/Http/Head.antt =====
-- levin/core/parsers/http_simple.py: the lines of a response's head, and where the head ends.
use levin.Prelude.{
  ℕ, ◌≡◌, ◌≢◌, refl, ap, ◌∙◌, Bool, true, false, Option, none, some, List, [], ◌∷◌, ◌++◌, map,
  append_assoc, arith, All, All-append, is_empty, inl, inr, if◌then◌else◌, Bool-cases, not, ◌&&◌,
  and-true, ◌==◌, Bool-cases, not, ◌&&◌, ◌==◌,
}
use levin.Bytes.{Bytes, codes, eqb, capitalize, decimal, join, lower_byte, upper_byte}
use levin.Bytes.Lines.{IsLine}
use levin.Bytes.Decimal.{IsDigit, decimal-IsDigit}
use levin.Dict.{Dict, put}
use levin.Http.{header_name, header_line, crlf}
use levin.Http.Statuses.{lookup_status, http_statuses}

abbrev pub concat : List Bytes → Bytes
concat [] = []
concat (chunk ∷ chunks) = chunk ++ concat chunks

-- The first CR LF CR LF, where a client ends the head, and what follows it.
unfoldable pub after_head : Bytes → Option Bytes
after_head [] = none
after_head (a ∷ []) = none
after_head (a ∷ b ∷ []) = none
after_head (a ∷ b ∷ c ∷ []) = none
after_head (a ∷ b ∷ c ∷ d ∷ s) =
    let rest = after_head (b ∷ c ∷ d ∷ s) in
    if eqb (a ∷ b ∷ c ∷ d ∷ []) (13 ∷ 10 ∷ 13 ∷ 10 ∷ []) then some s else rest

after_head-cons : (c : ℕ) (s : Bytes) → c ≢ 13 → after_head (c ∷ s) ≡ after_head s
unfolding after_head
after_head-cons c [] h = refl
after_head-cons c (a ∷ []) h = refl
after_head-cons c (a ∷ b ∷ []) h = refl
after_head-cons c (a ∷ b ∷ d ∷ s) h = ground arith

pub after_head-line : (line s : Bytes) → IsLine line → after_head (line ++ s) ≡ after_head s
after_head-line [] s h = refl
after_head-line (c ∷ line) s ((_, p), h) =
    after_head-cons c (line ++ s) p ∙ after_head-line line s h

-- The end of a line that is followed by a byte of the next one does not end the head.
after_head-crlf : (c : ℕ) (s : Bytes) → c ≢ 13 → after_head (crlf ++ c ∷ s) ≡ after_head (c ∷ s)
unfolding after_head
after_head-crlf c s h =
    let first : after_head (13 ∷ 10 ∷ c ∷ s) ≡ after_head (10 ∷ c ∷ s) = skip s in
    first ∙ after_head-cons 10 (c ∷ s) (omega arith)
  where
    skip : (t : Bytes) → after_head (13 ∷ 10 ∷ c ∷ t) ≡ after_head (10 ∷ c ∷ t)
    skip [] = refl
    skip (d ∷ t) = ground arith

pub after_head-end : (s : Bytes) → after_head (crlf ++ (crlf ++ s)) ≡ some s
unfolding after_head
after_head-end s = refl

-- A line of the head: no line end in it, and not empty.
abbrev pub IsHeadLine : Bytes → Type 0
IsHeadLine s = IsLine s × (is_empty s ≡ false)

after_head-head_line :
    (line s : Bytes) → IsHeadLine line → after_head (crlf ++ (line ++ s)) ≡ after_head s
after_head-head_line [] s (_, e) = cc
after_head-head_line (c ∷ line) s (h, _) =
    after_head-crlf c (line ++ s) (h.0).1 ∙ after_head-line (c ∷ line) s h

pub after_head-join :
    (line : Bytes) (lines : List Bytes) (s : Bytes)
    → All IsHeadLine (line ∷ lines)
    → after_head (crlf ++ (join crlf (line ∷ lines) ++ s)) ≡ after_head s
unfolding join
after_head-join line [] s (h, _) = after_head-head_line line s h
after_head-join line (next ∷ lines) s (h, hs) =
    ap (λ t. after_head (crlf ++ t)) (append_assoc line (crlf ++ join crlf (next ∷ lines)) s)
    ∙ after_head-head_line line (crlf ++ (join crlf (next ∷ lines) ++ s)) h
    ∙ after_head-join next lines s hs

upper_byte-line : (c : ℕ) → (c ≢ 10) × (c ≢ 13) → (upper_byte c ≢ 10) × (upper_byte c ≢ 13)
upper_byte-line c h = ground arith

lower_byte-line : (c : ℕ) → (c ≢ 10) × (c ≢ 13) → (lower_byte c ≢ 10) × (lower_byte c ≢ 13)
lower_byte-line c h = ground arith

map_lower-IsLine : (s : Bytes) → IsLine s → IsLine (map lower_byte s)
map_lower-IsLine [] h = tt
map_lower-IsLine (c ∷ s) (h, hs) = (lower_byte-line c h, map_lower-IsLine s hs)

capitalize-IsLine : (s : Bytes) → IsLine s → IsLine (capitalize s)
unfolding capitalize
capitalize-IsLine [] h = tt
capitalize-IsLine (c ∷ s) (h, hs) = (upper_byte-line c h, map_lower-IsLine s hs)

-- For texts that are written in the program.
abbrev is_line : Bytes → Bool
is_line [] = true
is_line (c ∷ s) = not (c == 10) && (not (c == 13) && is_line s)

pub is_line_sound : (s : Bytes) → is_line s ≡ true → IsLine s
is_line_sound [] h = tt
is_line_sound (c ∷ s) h = (ground arith, is_line_sound s (ground arith))

header_name-IsLine : (k : Bytes) → IsLine k → IsLine (header_name k)
unfolding header_name
header_name-IsLine k h = elim (Bool-cases (eqb k (codes "content-type"))) [
  | inl e ↦ rw e (is_line_sound (codes "Content-Type") refl)
  | inr e ↦ rw e (capitalize-IsLine k h)
]

is_empty-append : (a : Bytes) (c : ℕ) (b : Bytes) → is_empty (a ++ c ∷ b) ≡ false
is_empty-append [] c b = refl
is_empty-append (x ∷ a) c b = refl

-- No name and no value of the headers holds a line end.
abbrev pub IsClean : Dict Bytes → Type 0
IsClean headers = All (λ h. IsLine h.0 × IsLine h.1) headers

header_line-IsHeadLine : (h : Bytes × Bytes) → IsLine h.0 → IsLine h.1 → IsHeadLine (header_line h)
unfolding header_line
header_line-IsHeadLine h k v = (
  All-append _ (header_name h.0) (58 ∷ 32 ∷ h.1) (header_name-IsLine h.0 k)
      ((omega arith, omega arith), ((omega arith, omega arith), v)),
  is_empty-append (header_name h.0) 58 (32 ∷ h.1),
)

pub header_lines-IsHeadLine :
    (headers : Dict Bytes) → IsClean headers → All IsHeadLine (map header_line headers)
header_lines-IsHeadLine [] h = tt
header_lines-IsHeadLine (h ∷ headers) ((k, v), hs) =
    (header_line-IsHeadLine h k v, header_lines-IsHeadLine headers hs)

digits-IsLine : (s : Bytes) → All IsDigit s → IsLine s
digits-IsLine [] h = tt
digits-IsLine (c ∷ s) (h, hs) = ((omega arith, omega arith), digits-IsLine s hs)

pub decimal-IsLine : (n : ℕ) → IsLine (decimal n)
decimal-IsLine n = digits-IsLine (decimal n) (decimal-IsDigit n)

phrases_are_lines : List (ℕ × Bytes) → Bool
phrases_are_lines [] = true
phrases_are_lines ((code, phrase) ∷ rest) = is_line phrase && phrases_are_lines rest

lookup_status-IsLine :
    (status : ℕ) (table : List (ℕ × Bytes)) (phrase : Bytes)
    → phrases_are_lines table ≡ true
    → lookup_status status table ≡ some phrase
    → IsLine phrase
unfolding lookup_status phrases_are_lines
lookup_status-IsLine status [] phrase h e = cc
lookup_status-IsLine status ((code, p) ∷ table) phrase h e = elim (Bool-cases (code == status)) [
  | inl same ↦ let q : p ≡ phrase = ground arith in rw (← q) (is_line_sound p (and-true _ _ h).0)
  | inr other ↦ lookup_status-IsLine status table phrase (and-true _ _ h).1 (ground arith)
]

pub known_phrase :
    (status : ℕ) (phrase : Bytes) → lookup_status status http_statuses ≡ some phrase → IsLine phrase
unfolding http_statuses phrases_are_lines
known_phrase status phrase = lookup_status-IsLine status http_statuses phrase refl

pub put-IsClean :
    (k v : Bytes) (headers : Dict Bytes)
    → IsLine k
    → IsLine v
    → IsClean headers
    → IsClean (put k v headers)
unfolding put
put-IsClean k v [] hk hv h = ((hk, hv), tt)
put-IsClean k v ((j, w) ∷ headers) hk hv ((hj, hw), h) = elim (Bool-cases (eqb j k)) [
  | inl e ↦ rw e ((hj, hv), h)
  | inr e ↦ rw e ((hj, hw), put-IsClean k v headers hk hv h)
]

pub is_empty-put {ℓ} : {V : Type ℓ} (k : Bytes) (v : V) (d : Dict V) → is_empty (put k v d) ≡ false
unfolding put
is_empty-put k v [] = refl
is_empty-put k v ((j, w) ∷ d) = ground arith
