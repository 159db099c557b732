-- ===== src/Http.antt =====
-- levin/core/parsers/http_simple.py: the HTTP/1 parser, which holds no state.
pub mod Statuses
pub mod Printing
pub mod ParseLaws
pub mod BodyLaws
pub mod ErrorLaws
pub mod Client
pub mod Head
pub mod ResponseLaws
pub mod Tests
use levin.Prelude.{
  ℕ, Bool, true, false, not, ◌&&◌, ◌||◌, Option, none, some, List, [], ◌∷◌, ◌++◌, map, ◌==◌,
  if◌then◌else◌, is_empty, length,
}
use levin.Bytes.{
  Bytes, codes, eqb, strip, lower, split, split_once, contains, splitlines, join, decimal,
  capitalize,
}
use levin.Result.{Result, ok, err, parse_error, value_error, type_error, ◌>>=◌}
use levin.Dict.{Dict, lookup, put}
use levin.Common.{Request, new_request, Response}
use levin.Http.Statuses.{http_statuses, lookup_status}

-- The variables of the loop in `handle_request`.
pub record Reading : Type 0 where
  pub method : Bytes
  pub path : Bytes
  pub protocol : Bytes
  pub body : Option Bytes
  pub headers : List (Bytes × Bytes)

abbrev pub unread : Reading
unread = record { method = []; path = []; protocol = []; body = none; headers = [] }

-- `method, path, version = segments`, after the guard
three_segments : List Bytes → Result (Bytes × Bytes × Bytes)
three_segments (method ∷ path ∷ version ∷ []) =
    if contains (codes "HTTP") version
    then ok (strip method, strip path, strip version)
    else err parse_error
three_segments _ = err parse_error

-- Parser._parse_first_line
unfoldable pub parse_first_line : Bytes → Result (Bytes × Bytes × Bytes)
unfolding three_segments
parse_first_line line = three_segments (split 32 line)

-- `name, value = line.split(b":", 1)` raises ValueError where there is no colon.
unfoldable pub parse_header : Bytes → Result (Bytes × Bytes)
parse_header line = elim (split_once 58 line) [
  | none ↦ err value_error
  | some (name, content) ↦ ok (lower (strip name), strip content)
]

-- The end of the loop's body: a line after the first one that is not blank.
read_content : Bytes → Option Bytes → Reading → Result Reading
unfolding parse_header
read_content line none r = do
  header ← parse_header line
  ok (record r { headers = r.headers ++ header ∷ [] })
read_content line (some body) r = ok (record r { body = some (body ++ line) })

-- `method, path, protocol = self._parse_first_line(line)`
read_first : Bytes → Reading → Result Reading
unfolding parse_first_line
read_first line r = do
  first ← parse_first_line line
  ok (record r { method = first.0; path = first.1; protocol = first.2 })

-- One round of the loop.
unfoldable pub read_line : Bytes → Reading → Result Reading
unfolding read_first read_content
read_line line r =
    if is_empty r.path
    then read_first line r
    else (if is_empty line then ok (record r { body = some [] }) else read_content line r.body r)

unfoldable pub read_lines : List Bytes → Reading → Result Reading
unfolding read_line
read_lines [] r = ok r
read_lines (line ∷ lines) r = do next ← read_line line r; read_lines lines next

-- What a parser gives for the data: bytes to send, the requests, and whether to close.
pub record Parsed : Type 0 where
  pub to_send : Option Bytes
  pub requests : List Request
  pub close : Bool

-- The test and the return after the loop; the method's default scheme is b"http".
unfoldable pub finish_reading : Reading → Result Parsed
finish_reading r =
    if not (is_empty r.path) && (not (is_empty r.method) && not (is_empty r.protocol))
    then ok (record {
      to_send = some [];
      requests = new_request r.path r.method r.body r.headers r.protocol 0 (codes "http") ∷ [];
      close = false;
    })
    else err parse_error

-- Parser.handle_request
unfoldable pub handle_request : Bytes → Result Parsed
unfolding read_lines finish_reading
handle_request input = do r ← read_lines (splitlines input) unread; finish_reading r

-- HTTP_HEADERS.get(k, k.capitalize())
unfoldable pub header_name : Bytes → Bytes
header_name k = if eqb k (codes "content-type") then codes "Content-Type" else capitalize k

abbrev pub crlf : Bytes
crlf = 13 ∷ 10 ∷ []

unfoldable pub header_line : Bytes × Bytes → Bytes
unfolding header_name
header_line (k, v) = header_name k ++ (codes ": " ++ v)

-- The write to `response.headers` of the first `if`.
unfoldable pub with_length : Response → Dict Bytes
with_length response =
    if is_empty response.body
    then response.headers
    else put (codes "Content-Length") (decimal (length response.body)) response.headers

-- What the generator yields after the status line.
unfoldable pub body_chunks : Bytes → List Bytes
body_chunks [] = crlf ∷ []
body_chunks (c ∷ body) = (crlf ++ (crlf ++ c ∷ body)) ∷ crlf ∷ []

-- Parser.handle_response: the chunks that it yields. A status that HTTPStatus lacks makes the first
-- one a sum of bytes and None.
unfoldable pub handle_response : Response → Result (List Bytes)
unfolding with_length header_line body_chunks
handle_response response = elim (lookup_status response.status http_statuses) [
  | none ↦ err type_error
  | some phrase ↦ ok (
      (codes "HTTP/1.1 " ++ (decimal response.status ++ (codes " " ++ (phrase ++ crlf))))
      ∷ join crlf (map header_line (with_length response))
      ∷ body_chunks response.body)
]
