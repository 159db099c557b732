-- ===== src/Http/ParseLaws.antt =====
-- levin/core/parsers/http_simple.py: `handle_request` on the requests that a client writes.
use levin.Prelude.{
  ℕ, ◌≡◌, refl, ap, ◌∙◌, false, none, some, List, [], ◌∷◌, ◌++◌, map, append_assoc, append-nil,
  arith, All, All-append, inl, inr, Bool-cases,
}
use levin.Bytes.{Bytes, codes, splitlines}
use levin.Bytes.Lines.{IsLine, crlf, splitlines-line, splitlines_last, splitlines_nil}
use levin.Bytes.Split.{Lacks, split_once-Lacks}
use levin.Result.{ok, err, value_error}
use levin.Common.{new_request}
use levin.Http.{
  Reading, unread, handle_request, parse_header, read_content, read_line, read_lines, read_first,
  finish_reading,
}
use levin.Http.Printing.{
  header_text, print_headers, first_line, print_request, IsWord, IsHeader, IsPrintable, lowered,
  has_blank, after_last_blank, concat,
}
use levin.Http.BodyLaws.{parse_first_line-first_line, read_lines-headers, read_lines-body}

header_text-IsLine : (h : Bytes × Bytes) → IsHeader h → IsLine (header_text h)
header_text-IsLine h c =
    All-append _ h.0 (58 ∷ 32 ∷ h.1) c.name_line
      ((omega arith, omega arith), ((omega arith, omega arith), c.content_line))

splitlines-print_headers :
    (headers : List (Bytes × Bytes)) (rest : Bytes)
    → All IsHeader headers
    → splitlines (print_headers headers ++ rest) ≡ map header_text headers ++ splitlines rest
unfolding print_headers
splitlines-print_headers [] rest h = refl
splitlines-print_headers (h ∷ headers) rest (c, cs) =
    ap splitlines (
      append_assoc (header_text h) (crlf ++ print_headers headers) rest
      ∙ ap (λ s. header_text h ++ s) (append_assoc crlf (print_headers headers) rest))
    ∙ splitlines-line (header_text h) (print_headers headers ++ rest) (header_text-IsLine h c)
    ∙ ap (λ ls. header_text h ∷ ls) (splitlines-print_headers headers rest cs)

first_line-IsLine :
    (method path version : Bytes)
    → IsWord method
    → IsWord path
    → IsWord version
    → IsLine (first_line method path version)
first_line-IsLine method path version m p v =
    All-append _ method (32 ∷ (path ++ 32 ∷ version)) m.line (
      (omega arith, omega arith),
      All-append _ path (32 ∷ version) p.line ((omega arith, omega arith), v.line),
    )

-- The lines of a printed request: its parts in order.
splitlines-print_request :
    (method path version : Bytes) (headers : List (Bytes × Bytes)) (body : Bytes)
    → IsPrintable method path version headers
    → splitlines (print_request method path version headers body)
      ≡ first_line method path version ∷ (map header_text headers ++ [] ∷ splitlines body)
unfolding print_request
splitlines-print_request method path version headers body h =
    splitlines-line (first_line method path version) (print_headers headers ++ (crlf ++ body))
      (first_line-IsLine method path version h.method_word h.path_word h.version_word)
    ∙ ap (λ ls. first_line method path version ∷ ls)
        (splitlines-print_headers headers (crlf ++ body) h.clean
          ∙ ap (λ ls. map header_text headers ++ ls) (splitlines-line [] body tt))

read_lines-print_request :
    (method path version : Bytes) (headers : List (Bytes × Bytes)) (lines : List Bytes)
    → IsPrintable method path version headers
    → read_lines (first_line method path version ∷ (map header_text headers ++ [] ∷ lines)) unread
      ≡ ok (record {
        method = method;
        path = path;
        protocol = version;
        body = some (concat (after_last_blank ([] ∷ lines)));
        headers = lowered headers;
      })
unfolding read_lines
read_lines-print_request method path version headers lines h =
    let first : read_line (first_line method path version) unread
        ≡ ok (record unread { method = method; path = path; protocol = version }) =
      unfold read_line read_first in
      rw (
        parse_first_line-first_line method path version h.method_word h.path_word h.version_word
          h.http) in
    rw first (
      read_lines-headers headers ([] ∷ lines)
        (record unread { method = method; path = path; protocol = version }) h.clean
        h.path_word.filled refl
      ∙ blank)
  where
    start : Reading
    start = record {
      method = method;
      path = path;
      protocol = version;
      body = none;
      headers = lowered headers;
    }

    after_blank :
        read_lines lines (record start { body = some [] })
        ≡ ok (record start { body = some (concat (after_last_blank ([] ∷ lines))) })
    after_blank = elim (Bool-cases (has_blank lines)) [
      | inl e ↦
          read_lines-body lines [] (record start { body = some [] }) h.path_word.filled refl ∙ rw e
      | inr e ↦
          read_lines-body lines [] (record start { body = some [] }) h.path_word.filled refl ∙ rw e
    ]

    blank :
        read_lines ([] ∷ lines) start
        ≡ ok (record start { body = some (concat (after_last_blank ([] ∷ lines))) })
    blank = unfold read_line in rw h.path_word.filled after_blank

-- Whatever its body, a request that a client writes is read as one request with its method, its
-- path, its version and its headers, names in lower case; the body that it gets is what stands
-- after the last blank line of the written body, without the line ends.
pub handle_request-print_request :
    (method path version : Bytes) (headers : List (Bytes × Bytes)) (body : Bytes)
    → IsPrintable method path version headers
    → handle_request (print_request method path version headers body)
      ≡ ok (record {
        to_send = some [];
        requests =
            new_request path method
              (some (concat (after_last_blank ([] ∷ splitlines body))))
              (lowered headers)
              version
              0
              (codes "http")
            ∷ [];
        close = false;
      })
unfolding handle_request finish_reading
handle_request-print_request method path version headers body h =
    rw
      (
        splitlines-print_request method path version headers body h,
        read_lines-print_request method path version headers (splitlines body) h,
      )
      (rw (h.path_word.filled, h.method_word.filled, h.version_word.filled))

body_of_line :
    (body : Bytes) → IsLine body → concat (after_last_blank ([] ∷ splitlines body)) ≡ body
body_of_line [] h = rw splitlines_nil
body_of_line (c ∷ body) h = rw (splitlines_last c body h, append-nil)

-- A request whose body is one line, or empty, comes back whole.
pub handle_request-round_trip :
    (method path version : Bytes) (headers : List (Bytes × Bytes)) (body : Bytes)
    → IsPrintable method path version headers
    → IsLine body
    → handle_request (print_request method path version headers body)
      ≡ ok (record {
        to_send = some [];
        requests =
            new_request path method (some body) (lowered headers) version 0 (codes "http") ∷ [];
        close = false;
      })
handle_request-round_trip method path version headers body h line =
    handle_request-print_request method path version headers body h ∙ rw (body_of_line body line)

-- A header line with no colon raises ValueError, not ParseError, whatever follows it.
pub handle_request-no_colon :
    (method path version : Bytes) (headers : List (Bytes × Bytes)) (c : ℕ) (line rest : Bytes)
    → IsPrintable method path version headers
    → IsLine (c ∷ line)
    → Lacks 58 (c ∷ line)
    → handle_request (
        first_line method path version
        ++ (crlf ++ (print_headers headers ++ ((c ∷ line) ++ (crlf ++ rest)))))
      ≡ err value_error
unfolding handle_request read_lines
handle_request-no_colon method path version headers c line rest h l k =
    let start : Reading = record unread { method = method; path = path; protocol = version } in
    let first : read_line (first_line method path version) unread ≡ ok start =
      unfold read_line read_first in
      rw (
        parse_first_line-first_line method path version h.method_word h.path_word h.version_word
          h.http) in
    let next : Reading = record start { headers = lowered headers } in
    let bad : read_lines ((c ∷ line) ∷ splitlines rest) next ≡ err value_error =
      unfold read_line read_content in
      rw h.path_word.filled (rw (split_once-Lacks 58 (c ∷ line) k, parse_header)) in
    rw (
      splitlines-line (first_line method path version)
          (print_headers headers ++ ((c ∷ line) ++ (crlf ++ rest)))
          (first_line-IsLine method path version h.method_word h.path_word h.version_word),
      splitlines-print_headers headers ((c ∷ line) ++ (crlf ++ rest)) h.clean,
      splitlines-line (c ∷ line) rest l,
      first,
      read_lines-headers headers ((c ∷ line) ∷ splitlines rest) start h.clean h.path_word.filled
          refl,
      bad,
    )
