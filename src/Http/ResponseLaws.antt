-- ===== src/Http/ResponseLaws.antt =====
-- levin/core/parsers/http_simple.py: the bytes of a response.
use levin.Prelude.{
  ℕ, ◌≡◌, refl, ap, ◌∙◌, false, none, some, List, [], ◌∷◌, ◌++◌, map, append_assoc, is_empty,
  length, take, All, All-append,
}
use levin.Bytes.{Bytes, codes, decimal, join, splitlines}
use levin.Bytes.Lines.{IsLine, splitlines-line}
use levin.Result.{ok}
use levin.Dict.{Dict, put}
use levin.Common.{Response}
use levin.Http.{handle_response, header_line, with_length, body_chunks, crlf}
use levin.Http.Statuses.{lookup_status, http_statuses}
use levin.Http.Head.{
  concat, after_head, after_head-line, after_head-end, after_head-join, is_line_sound, IsClean,
  header_lines-IsHeadLine, decimal-IsLine, known_phrase, put-IsClean, is_empty-put, IsHeadLine,
}
use levin.Http.Client.{
  AreNames, after_first, announced_length, length_in, length_in-put, splitlines-join,
}

regroup :
    (a b c d e s : Bytes) → (a ++ (b ++ (c ++ (d ++ e)))) ++ s ≡ a ++ (b ++ (c ++ (d ++ (e ++ s))))
regroup a b c d e s = simp append_assoc

abbrev status_line : ℕ → Bytes → Bytes
status_line status phrase = codes "HTTP/1.1 " ++ (decimal status ++ (codes " " ++ (phrase ++ crlf)))

after_head-status_line :
    (status : ℕ) (phrase s : Bytes)
    → IsLine phrase
    → after_head (status_line status phrase ++ s) ≡ after_head (crlf ++ s)
after_head-status_line status phrase s h =
    ap after_head (regroup (codes "HTTP/1.1 ") (decimal status) (codes " ") phrase crlf s)
    ∙ after_head-line (codes "HTTP/1.1 ") _ (is_line_sound (codes "HTTP/1.1 ") refl)
    ∙ after_head-line (decimal status) _ (decimal-IsLine status)
    ∙ after_head-line (codes " ") _ (is_line_sound (codes " ") refl)
    ∙ after_head-line phrase (crlf ++ s) h

-- The head of any response that has a header, up to what the generator yields after it.
after_head-head :
    (status : ℕ) (phrase s : Bytes) (headers : Dict Bytes)
    → IsLine phrase
    → IsClean headers
    → is_empty headers ≡ false
    → after_head (status_line status phrase ++ (join crlf (map header_line headers) ++ s))
      ≡ after_head s
after_head-head status phrase s [] p c h = cc
after_head-head status phrase s (first ∷ headers) p c h =
    after_head-status_line status phrase (join crlf (map header_line (first ∷ headers)) ++ s) p
    ∙ after_head-join (header_line first) (map header_line headers) s
        (header_lines-IsHeadLine (first ∷ headers) c)

take-append : (a b : Bytes) → take (length a) (a ++ b) ≡ a
take-append [] b = refl
take-append (x ∷ a) b = ap (λ s. x ∷ s) (take-append a b)

concat-body_chunks :
    (body : Bytes)
    → is_empty body ≡ false
    → concat (body_chunks body) ≡ crlf ++ (crlf ++ (body ++ crlf))
unfolding body_chunks
concat-body_chunks [] h = cc
concat-body_chunks (c ∷ body) h = refl

abbrev pub printed : Response → Bytes → List Bytes
printed r phrase =
    status_line r.status phrase ∷ join crlf (map header_line (with_length r)) ∷ body_chunks r.body

pub handle_response_known :
    (r : Response) (phrase : Bytes)
    → lookup_status r.status http_statuses ≡ some phrase
    → handle_response r ≡ ok (printed r phrase)
unfolding handle_response
handle_response_known r phrase e = rw (e, handle_response)

with_length_filled :
    (r : Response)
    → is_empty r.body ≡ false
    → with_length r ≡ put (codes "Content-Length") (decimal (length r.body)) r.headers
unfolding with_length
with_length_filled r h = rw h

with_length_empty : (r : Response) → r.body ≡ [] → with_length r ≡ r.headers
unfolding with_length
with_length_empty r h = rw (ap is_empty h)

lone_crlf : after_head (concat (body_chunks [])) ≡ none
unfolding after_head body_chunks
lone_crlf = refl

regroup_line :
    (a b c d e s : Bytes) → (a ++ (b ++ (c ++ (d ++ e)))) ++ s ≡ (a ++ (b ++ (c ++ d))) ++ (e ++ s)
regroup_line a b c d e s = simp append_assoc

are_lines : (lines : List Bytes) → All IsHeadLine lines → All IsLine lines
are_lines [] h = tt
are_lines (line ∷ lines) (h, hs) = (h.0, are_lines lines hs)

-- The lines of the head behind the status line, and of what follows them.
splitlines-head :
    (status : ℕ) (phrase s : Bytes) (headers : Dict Bytes)
    → IsLine phrase
    → IsClean headers
    → is_empty headers ≡ false
    → after_first (
        splitlines
          (status_line status phrase ++ (join crlf (map header_line headers) ++ (crlf ++ s))))
      ≡ map header_line headers ++ splitlines s
splitlines-head status phrase s [] p c h = cc
splitlines-head status phrase s (first ∷ headers) p c h =
    let start = codes "HTTP/1.1 " ++ (decimal status ++ (codes " " ++ phrase)) in
    let rest = join crlf (map header_line (first ∷ headers)) ++ (crlf ++ s) in
    let is_line : IsLine start =
      All-append _ (codes "HTTP/1.1 ") (decimal status ++ (codes " " ++ phrase))
        (is_line_sound (codes "HTTP/1.1 ") refl)
        (All-append _ (decimal status) (codes " " ++ phrase) (decimal-IsLine status)
          (All-append _ (codes " ") phrase (is_line_sound (codes " ") refl) p)) in
    ap (λ (x : Bytes). after_first (splitlines x))
      (regroup_line (codes "HTTP/1.1 ") (decimal status) (codes " ") phrase crlf rest)
    ∙ ap after_first (splitlines-line start rest is_line)
    ∙ splitlines-join (header_line first) (map header_line headers) s (
        are_lines (map header_line (first ∷ headers)) (header_lines-IsHeadLine (first ∷ headers) c))

-- A response with a known status, a body, and headers whose names and values hold no line end, the names no
-- colon either, and whose Content-Length, if they have one, is spelled so, is printed. A client that splits
-- the printed bytes into lines, takes the number of the first header Content-Length, in any case, as
-- the length, and reads as many bytes behind the first empty line, gets the body.
pub handle_response_framing :
    (r : Response) (phrase : Bytes)
    → lookup_status r.status http_statuses ≡ some phrase
    → IsClean r.headers
    → AreNames r.headers
    → is_empty r.body ≡ false
    → (chunks : List Bytes) × (size : ℕ) × (rest : Bytes) × (handle_response r ≡ ok chunks)
      × (announced_length (concat chunks) ≡ some size)
      × (after_head (concat chunks) ≡ some rest)
      × (take size rest ≡ r.body)
handle_response_framing r phrase known clean names filled =
    let name = codes "Content-Length" in
    let digits = decimal (length r.body) in
    let headers = put name digits r.headers in
    let sized = with_length_filled r filled in
    let tidy : IsClean headers =
      put-IsClean name digits r.headers (is_line_sound name refl) (decimal-IsLine (length r.body))
        clean in
    let is_line : IsLine phrase = known_phrase r.status phrase known in
    let some_header : is_empty headers ≡ false = is_empty-put name digits r.headers in
    (
      printed r phrase,
      length r.body,
      r.body ++ crlf,
      handle_response_known r phrase known,
      rw (sized, concat-body_chunks r.body filled)
          (ap length_in (
              splitlines-head r.status phrase (crlf ++ (r.body ++ crlf)) headers is_line tidy
                some_header)
            ∙ length_in-put (length r.body) r.headers (splitlines (crlf ++ (r.body ++ crlf)))
                names),
      rw (sized, concat-body_chunks r.body filled)
          (after_head-head r.status phrase (crlf ++ (crlf ++ (r.body ++ crlf))) headers is_line tidy
              some_header
            ∙ after_head-end (r.body ++ crlf)),
      take-append r.body crlf,
    )

-- A response with a known status, no body and at least one header is printed with no end of its
-- head: the bytes hold no empty line, for which a client waits.
pub handle_response_unended :
    (r : Response) (phrase : Bytes)
    → lookup_status r.status http_statuses ≡ some phrase
    → IsClean r.headers
    → is_empty r.headers ≡ false
    → r.body ≡ []
    → (chunks : List Bytes) × (handle_response r ≡ ok chunks) × (after_head (concat chunks) ≡ none)
handle_response_unended r phrase known clean some_header no_body = (
  printed r phrase,
  handle_response_known r phrase known,
  rw (with_length_empty r no_body) (
      ap
        (λ b. after_head (
          status_line r.status phrase
          ++ (join crlf (map header_line r.headers) ++ concat (body_chunks b))))
        no_body
      ∙ after_head-head r.status phrase (concat (body_chunks [])) r.headers
          (known_phrase r.status phrase known) clean some_header
      ∙ lone_crlf),
)
