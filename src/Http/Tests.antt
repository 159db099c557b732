-- ===== src/Http/Tests.antt =====
-- Runs of the HTTP/1 parser on small inputs.
use levin.Prelude.{◌≡◌, refl, Bool, true, false, List, [], ◌∷◌, some, arith, take, inr, ℕ}
use levin.Bytes.{
  Bytes, codes, splitlines, split, split_once, strip, lower, contains, decimal, join, capitalize,
}
use levin.Dict.{put}
use levin.Result.{Result, ok, err, parse_error, value_error}
use levin.Common.{Response, new_request, new_response}
use levin.Http.{Parsed, handle_request, handle_response}
use levin.Http.Statuses.{http_statuses, lookup_status}
use levin.Http.Printing
use levin.Http.Printing.{
  IsWord, IsHeader, IsPrintable, lowered, print_request, print_headers, first_line,
  after_last_blank,
}
use levin.Http.ParseLaws.{handle_request-round_trip, handle_request-print_request}
use levin.Http.ErrorLaws.{IsOutcome, handle_request-IsOutcome}
use levin.Http.Head
use levin.Http.Head.{after_head}
use levin.Http.Client.{announced_length, has_colon_sound}
use levin.Http.ResponseLaws.{handle_response_framing}

bytes_methods : Unit {0}
unfolding splitlines split split_once strip lower contains decimal join capitalize
bytes_methods = tt

abbrev post : Bytes
post = codes "POST /a?b=1 HTTP/1.1\r\nHost: x:80\r\nAccept : y \r\n\r\nq=1"

post_parsed :
    handle_request post
    ≡ ok (record {
      to_send = some [];
      requests =
          new_request
            (codes "/a?b=1")
            (codes "POST")
            (some (codes "q=1"))
            ((codes "host", codes "x:80") ∷ (codes "accept", codes "y") ∷ [])
            (codes "HTTP/1.1")
            0
            (codes "http")
          ∷ [];
      close = Bool.false;
    })
unfolding bytes_methods handle_request
post_parsed = refl

no_colon : handle_request (codes "GET / HTTP/1.1\nHost\n\n") ≡ err value_error
unfolding bytes_methods handle_request
no_colon = refl

not_http : handle_request (codes "PRI * X\n") ≡ err parse_error
unfolding bytes_methods handle_request
not_http = refl

pub hello :
    handle_response (new_response 200 (codes "hi") ((codes "content-type", codes "t") ∷ []))
    ≡ ok (
        codes "HTTP/1.1 200 OK\r\n"
        ∷ codes "Content-Type: t\r\nContent-length: 2"
        ∷ codes "\r\n\r\nhi"
        ∷ codes "\r\n"
        ∷ [])
unfolding bytes_methods handle_response new_response http_statuses lookup_status put
hello = refl

abbrev pub get_word : Bytes
get_word = codes "GET"

abbrev pub path_word : Bytes
path_word = codes "/a"

abbrev pub version_word : Bytes
version_word = codes "HTTP/1.1"

abbrev pub host : List (Bytes × Bytes)
host = (codes "Host", codes "x") ∷ []

pub get_IsWord : IsWord get_word
get_IsWord = record {
  line = omega arith;
  solid = omega arith;
  trimmed = (refl, refl);
  filled = refl;
}

pub path_IsWord : IsWord path_word
path_IsWord = record {
  line = omega arith;
  solid = omega arith;
  trimmed = (refl, refl);
  filled = refl;
}

pub version_IsWord : IsWord version_word
version_IsWord = record {
  line = omega arith;
  solid = omega arith;
  trimmed = (refl, refl);
  filled = refl;
}

host_IsHeader : IsHeader (codes "Host", codes "x")
host_IsHeader = record {
  name_line = omega arith;
  name_solid = omega arith;
  name_trimmed = (refl, refl);
  content_line = omega arith;
  content_trimmed = (refl, refl);
}

pub http_in_version : contains (codes "HTTP") version_word ≡ true
unfolding contains
http_in_version = refl

pub printable : IsPrintable get_word path_word version_word host
printable = record {
  method_word = get_IsWord;
  path_word = path_IsWord;
  version_word = version_IsWord;
  http = http_in_version;
  clean = (host_IsHeader, tt);
}

abbrev read_as : Bytes → Result Parsed
read_as body = ok (record {
  to_send = some [];
  requests =
      new_request path_word get_word (some body) (lowered host) version_word 0 (codes "http") ∷ [];
  close = false;
})

handle_request-round_trip_example :
    handle_request (print_request get_word path_word version_word host (codes "q=1"))
    ≡ read_as (codes "q=1")
handle_request-round_trip_example =
    handle_request-round_trip get_word path_word version_word host (codes "q=1") printable
      (omega arith)

handle_request-print_request_example :
    handle_request (print_request get_word path_word version_word host (codes "a\n\nb\nc"))
    ≡ read_as (Printing.concat (after_last_blank ([] ∷ splitlines (codes "a\n\nb\nc"))))
handle_request-print_request_example =
    handle_request-print_request get_word path_word version_word host (codes "a\n\nb\nc") printable

-- Of that body the last paragraph is left, its line ends gone.
lost_lines : Printing.concat (after_last_blank ([] ∷ splitlines (codes "a\n\nb\nc"))) ≡ codes "bc"
unfolding splitlines
lost_lines = refl

handle_request-IsOutcome_example : IsOutcome (handle_request post)
handle_request-IsOutcome_example = handle_request-IsOutcome post

abbrev hi : Response
hi = new_response 200 (codes "hi") ((codes "content-type", codes "t") ∷ [])

abbrev bare : Response
bare = new_response 200 [] ((codes "content-type", codes "t") ∷ [])

known_200 : lookup_status 200 http_statuses ≡ some (codes "OK")
unfolding lookup_status http_statuses
known_200 = refl

handle_response_framing_example :
    (chunks : List Bytes) × (size : ℕ) × (rest : Bytes) × (handle_response hi ≡ ok chunks)
    × (announced_length (Head.concat chunks) ≡ some size)
    × (after_head (Head.concat chunks) ≡ some rest)
    × (take size rest ≡ codes "hi")
unfolding new_response lower
handle_response_framing_example =
    handle_response_framing hi (codes "OK") known_200 ((omega arith, omega arith), tt)
      ((has_colon_sound (codes "content-type") refl, inr refl), tt) refl
