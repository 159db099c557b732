-- ===== src/Http/Printing.antt =====
-- A client's HTTP/1 request, as RFC 7230 writes it, and which parts can be written so.
use levin.Prelude.{
  ◌≡◌, Bool, true, false, List, [], ◌∷◌, ◌++◌, map, All, is_empty, if◌then◌else◌, ◌||◌,
}
use levin.Bytes.{Bytes, codes, contains, lower}
use levin.Bytes.Lines.{IsLine, crlf}
use levin.Bytes.Split.{Lacks, IsTrimmed}

abbrev pub header_text : Bytes × Bytes → Bytes
header_text (name, content) = name ++ 58 ∷ 32 ∷ content

unfoldable pub print_headers : List (Bytes × Bytes) → Bytes
print_headers [] = []
print_headers (header ∷ headers) = header_text header ++ (crlf ++ print_headers headers)

abbrev pub first_line : Bytes → Bytes → Bytes → Bytes
first_line method path version = method ++ 32 ∷ (path ++ 32 ∷ version)

-- Request line, headers, blank line, body.
unfoldable pub print_request : (method path version : Bytes) → List (Bytes × Bytes) → Bytes → Bytes
print_request method path version headers body =
    first_line method path version ++ (crlf ++ (print_headers headers ++ (crlf ++ body)))

-- A word of the request line: not empty, one line, no space in it or around it.
pub record IsWord (s : Bytes) : Type 0 where
  pub line : IsLine s
  pub solid : Lacks 32 s
  pub trimmed : IsTrimmed s
  pub filled : is_empty s ≡ false

pub record IsHeader (header : Bytes × Bytes) : Type 0 where
  pub name_line : IsLine header.0
  pub name_solid : Lacks 58 header.0
  pub name_trimmed : IsTrimmed header.0
  pub content_line : IsLine header.1
  pub content_trimmed : IsTrimmed header.1

pub record IsPrintable (method path version : Bytes) (headers : List (Bytes × Bytes)) : Type 0 where
  pub method_word : IsWord method
  pub path_word : IsWord path
  pub version_word : IsWord version
  pub http : contains (codes "HTTP") version ≡ true
  pub clean : All IsHeader headers

-- The headers that a parser of HTTP should report: names in lower case.
abbrev pub lowered : List (Bytes × Bytes) → List (Bytes × Bytes)
lowered headers = map (λ h. (lower h.0, h.1)) headers

abbrev pub has_blank : List Bytes → Bool
has_blank [] = false
has_blank (line ∷ lines) = is_empty line || has_blank lines

abbrev pub after_last_blank : List Bytes → List Bytes
after_last_blank [] = []
after_last_blank (line ∷ lines) =
    if has_blank lines
    then after_last_blank lines
    else (if is_empty line then lines else line ∷ lines)

abbrev pub concat : List Bytes → Bytes
concat [] = []
concat (line ∷ lines) = line ++ concat lines
