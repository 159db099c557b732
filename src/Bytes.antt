-- ===== src/Bytes.antt =====
-- Python's `bytes` and `str` as lists of numbers, and the methods of them that levin calls.
-- A `str` is a list of code points; an ASCII one and its encoding are the same list.
pub mod Equality
pub mod Lines
pub mod Split
pub mod Contains
pub mod Decimal
pub mod Utf8
use Prim.Native.Char.{code}
use Prim.Native.String.{String}
use levin.Prelude.{
  ℕ, zero, suc, ◌+◌, ◌-◌, ◌/◌, ◌%◌, Bool, true, false, ◌&&◌, ◌||◌, Option, none, some, List, [],
  ◌∷◌, ◌++◌, reverse, map, ltb, leb, ◌==◌, if◌then◌else◌, is_empty, length,
}

abbrev pub Bytes : Type 0
Bytes = List ℕ

abbrev pub Str : Type 0
Str = List ℕ

-- The code points of a literal.
abbrev pub codes : String → List ℕ
codes String.[] = []
codes (String.◌∷◌ c s) = code c ∷ codes s

-- a == b
abbrev pub eqb : Bytes → Bytes → Bool
eqb [] [] = true
eqb [] (y ∷ ys) = false
eqb (x ∷ xs) [] = false
eqb (x ∷ xs) (y ∷ ys) = (x == y) && eqb xs ys

abbrev pub is_upper_byte : ℕ → Bool
is_upper_byte c = leb b'A' c && leb c b'Z'

abbrev pub lower_byte : ℕ → ℕ
lower_byte c = if is_upper_byte c then c + 32 else c

abbrev pub upper_byte : ℕ → ℕ
upper_byte c = if leb b'a' c && leb c b'z' then c - 32 else c

-- b.lower()
unfoldable pub lower : Bytes → Bytes
lower = map lower_byte

-- b.capitalize()
unfoldable pub capitalize : Bytes → Bytes
capitalize [] = []
capitalize (c ∷ s) = upper_byte c ∷ map lower_byte s

-- The ASCII whitespace that `strip` takes off.
abbrev pub is_space : ℕ → Bool
is_space c = (c == 32) || (leb 9 c && leb c 13)

unfoldable pub lstrip : Bytes → Bytes
lstrip [] = []
lstrip (c ∷ s) = if is_space c then lstrip s else c ∷ s

-- b.strip()
unfoldable pub strip : Bytes → Bytes
unfolding lstrip
strip s = reverse (lstrip (reverse (lstrip s)))

unfoldable pub starts_with : Bytes → Bytes → Bool
starts_with [] s = true
starts_with (p ∷ ps) [] = false
starts_with (p ∷ ps) (c ∷ s) = (p == c) && starts_with ps s

-- s.endswith(p)
unfoldable pub ends_with : Bytes → Bytes → Bool
unfolding starts_with
ends_with p s = starts_with (reverse p) (reverse s)

-- p in s
unfoldable pub contains : Bytes → Bytes → Bool
unfolding starts_with
contains p [] = is_empty p
contains p (c ∷ s) = starts_with p (c ∷ s) || contains p s

-- c in s, of one byte
unfoldable pub contains_byte : ℕ → Bytes → Bool
contains_byte c [] = false
contains_byte c (x ∷ s) = (x == c) || contains_byte c s

push_first : ℕ → List Bytes → List Bytes
push_first c [] = (c ∷ []) ∷ []
push_first c (part ∷ parts) = (c ∷ part) ∷ parts

-- s.split(sep) of a separator of one byte
unfoldable pub split : ℕ → Bytes → List Bytes
unfolding push_first
split sep [] = [] ∷ []
split sep (c ∷ s) = let rest = split sep s in if c == sep then [] ∷ rest else push_first c rest

-- s.split(sep, 1), where the separator occurs
unfoldable pub split_once : ℕ → Bytes → Option (Bytes × Bytes)
split_once sep [] = none
split_once sep (c ∷ s) =
    let rest = split_once sep s in
    if c == sep then some ([], s) else elim rest [ none ↦ none | some (a, b) ↦ some (c ∷ a, b) ]

-- sep.join(parts)
unfoldable pub join : Bytes → List Bytes → Bytes
join sep [] = []
join sep (p ∷ []) = p
join sep (p ∷ q ∷ ps) = p ++ (sep ++ join sep (q ∷ ps))

-- `lines_from after_cr cur s`: the lines of `s`, where `cur` holds the bytes of the line that is
-- open, and `after_cr` says that the last byte was a CR that closed a line.
unfoldable pub lines_from : Bool → Bytes → Bytes → List Bytes
lines_from after_cr cur [] = if is_empty cur then [] else cur ∷ []
lines_from after_cr cur (c ∷ s) =
    let skipped = lines_from false cur s in
    let closed = cur ∷ lines_from false [] s in
    let returned = cur ∷ lines_from true [] s in
    let longer = lines_from false (cur ++ c ∷ []) s in
    if after_cr && (c == 10)
    then skipped
    else (if c == 10 then closed else (if c == 13 then returned else longer))

-- s.splitlines(): a line ends at LF, CR or CR LF, and a last line may lack its end.
unfoldable pub splitlines : Bytes → List Bytes
unfolding lines_from
splitlines = lines_from false []

digits_from : ℕ → ℕ → Bytes
digits_from zero n = []
digits_from (suc f) n =
    let more = digits_from f (n / 10) ++ (48 + n % 10) ∷ [] in
    if ltb n 10 then (48 + n) ∷ [] else more

-- str(n).encode(); n + 1 rounds are enough, a digit each.
unfoldable pub decimal : ℕ → Bytes
unfolding digits_from
decimal n = digits_from (suc n) n
