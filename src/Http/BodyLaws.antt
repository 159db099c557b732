-- ===== src/Http/BodyLaws.antt =====
-- levin/core/parsers/http_simple.py: what the loop makes of the lines of each part.
use levin.Prelude.{
  ℕ, ◌≡◌, refl, sym, ap, ◌∙◌, true, false, none, some, List, [], ◌∷◌, ◌++◌, map, append_assoc,
  append-nil, All, is_empty, if◌then◌else◌, Bool-cases, inl, inr,
}
use levin.Bytes.{Bytes, codes, contains, lower}
use levin.Bytes.Split.{split-append, split-Lacks, split_once-append, strip_trimmed, strip_space}
use levin.Result.{ok}
use levin.Http.{Reading, parse_header, parse_first_line, read_line, read_lines, read_content}
use levin.Http.Printing.{
  header_text, first_line, IsWord, IsHeader, lowered, has_blank, after_last_blank, concat,
}

pub parse_first_line-first_line :
    (method path version : Bytes)
    → IsWord method
    → IsWord path
    → IsWord version
    → contains (codes "HTTP") version ≡ true
    → parse_first_line (first_line method path version) ≡ ok (method, path, version)
unfolding parse_first_line
parse_first_line-first_line method path version m p v http =
    rw
      (
        split-append 32 method (path ++ 32 ∷ version) m.solid,
        split-append 32 path version p.solid,
        split-Lacks 32 version v.solid,
      )
      (rw
        (
          http,
          strip_trimmed method m.trimmed,
          strip_trimmed path p.trimmed,
          strip_trimmed version v.trimmed,
        )
        refl)

parse_header-header_text :
    (h : Bytes × Bytes) → IsHeader h → parse_header (header_text h) ≡ ok (lower h.0, h.1)
unfolding parse_header
parse_header-header_text h c =
    rw (split_once-append 58 h.0 (32 ∷ h.1) c.name_solid, parse_header)
      (rw (strip_trimmed h.0 c.name_trimmed, strip_space h.1 c.content_trimmed) refl)

is_empty-append : (a : Bytes) (c : ℕ) (b : Bytes) → is_empty (a ++ c ∷ b) ≡ false
is_empty-append [] c b = refl
is_empty-append (x ∷ a) c b = refl

-- The lines of the headers are read one by one, before the blank line.
pub read_lines-headers :
    (headers : List (Bytes × Bytes)) (rest : List Bytes) (r : Reading)
    → All IsHeader headers
    → is_empty r.path ≡ false
    → r.body ≡ none
    → read_lines (map header_text headers ++ rest) r
      ≡ read_lines rest (record r { headers = r.headers ++ lowered headers })
unfolding read_lines
read_lines-headers [] rest r c p b = rw append-nil
read_lines-headers (h ∷ headers) rest r (c, cs) p b =
    let next : Reading = record r { headers = r.headers ++ (lower h.0, h.1) ∷ [] } in
    let one : read_line (header_text h) r ≡ ok next =
      unfold read_line in
      rw (p, is_empty-append h.0 58 (32 ∷ h.1))
        (rw (b, read_content) (rw (parse_header-header_text h c))) in
    rw one (
      read_lines-headers headers rest next cs p b
      ∙ ap (λ hs. read_lines rest (record r { headers = hs }))
          (append_assoc r.headers ((lower h.0, h.1) ∷ []) (lowered headers)))

-- What the loop leaves of the lines after the first blank one.
abbrev body_after : Bytes → List Bytes → Bytes
body_after before lines =
    if has_blank lines then concat (after_last_blank lines) else before ++ concat lines

body_after-cons :
    (before line : Bytes) (lines : List Bytes)
    → body_after before (line ∷ lines)
      ≡ (if is_empty line then body_after [] lines else body_after (before ++ line) lines)
body_after-cons before [] lines = elim (Bool-cases (has_blank lines)) [
  | inl e ↦ rw e
  | inr e ↦ rw e
]
body_after-cons before (c ∷ line) lines = elim (Bool-cases (has_blank lines)) [
  | inl e ↦ rw e
  | inr e ↦ rw e (sym (append_assoc before (c ∷ line) (concat lines)))
]

pub read_lines-body :
    (lines : List Bytes) (before : Bytes) (r : Reading)
    → is_empty r.path ≡ false
    → r.body ≡ some before
    → read_lines lines r ≡ ok (record r { body = some (body_after before lines) })
unfolding read_lines read_line read_content
read_lines-body [] before r p b = rw (append-nil, ← b)
read_lines-body (line ∷ lines) before r p b = elim (Bool-cases (is_empty line)) [
  | inl e ↦
      rw (body_after-cons, p, e) (read_lines-body lines [] (record r { body = some [] }) p refl)
  | inr e ↦
      rw (body_after-cons, p, e)
        (rw (b, read_content)
          (read_lines-body lines (before ++ line) (record r { body = some (before ++ line) }) p
            refl))
]
