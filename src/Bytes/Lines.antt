-- ===== src/Bytes/Lines.antt =====
-- `splitlines` on lines that end in CR LF.
use levin.Prelude.{
  ℕ, ◌≡◌, refl, sym, ◌≢◌, ◌∙◌, ap, false, [], ◌∷◌, ◌++◌, append_assoc, append-nil, arith, All,
}
use levin.Bytes.{Bytes, lines_from, splitlines}

-- A line has no byte that ends one.
abbrev pub IsLine : Bytes → Type 0
IsLine s = All (λ c. (c ≢ 10) × (c ≢ 13)) s

abbrev pub crlf : Bytes
crlf = 13 ∷ 10 ∷ []

lines_from-append :
    (cur line rest : Bytes)
    → IsLine line
    → lines_from false cur (line ++ rest) ≡ lines_from false (cur ++ line) rest
unfolding lines_from
lines_from-append cur [] rest h = rw append-nil
lines_from-append cur (c ∷ line) rest ((p, q), h) =
    let step : lines_from false cur (c ∷ line ++ rest)
        ≡ lines_from false (cur ++ c ∷ []) (line ++ rest) =
      ground arith in
    step
    ∙ lines_from-append (cur ++ c ∷ []) line rest h
    ∙ ap (λ s. lines_from false s rest) (append_assoc cur (c ∷ []) line)

lines_from-crlf :
    (cur rest : Bytes) → lines_from false cur (crlf ++ rest) ≡ cur ∷ lines_from false [] rest
unfolding lines_from
lines_from-crlf cur rest = ground arith

-- A line and its end come off the front.
pub splitlines-line :
    (line rest : Bytes) → IsLine line → splitlines (line ++ (crlf ++ rest)) ≡ line ∷ splitlines rest
unfolding splitlines
splitlines-line line rest h = lines_from-append [] line (crlf ++ rest) h ∙ lines_from-crlf line rest

-- What is left at the end is a line of its own, unless it is empty.
pub splitlines_last :
    (c : ℕ) (line : Bytes) → IsLine (c ∷ line) → splitlines (c ∷ line) ≡ (c ∷ line) ∷ []
unfolding splitlines lines_from
splitlines_last c line h =
    ap (λ s. lines_from false [] s) (sym (append-nil (c ∷ line)))
    ∙ lines_from-append [] (c ∷ line) [] h

pub splitlines_nil : splitlines [] ≡ []
unfolding splitlines
splitlines_nil = refl
