-- ===== src/Server/Serving/Tests.antt =====
-- A server that upgrades a connection to HTTP/2, and one that answers a GET on a stream.
use levin.Prelude.{ℕ, ◌≡◌, refl, true, none, some, List, [], ◌∷◌, ◌++◌, arith}
use levin.Bytes.{Bytes, codes, lower, join}
use levin.Dict.{lookup, put}
use levin.Common.{Request, new_request, new_response, create_headers_map}
use levin.Http.Printing.{IsHeader, IsPrintable, lowered, print_request}
use levin.Http.Tests.{
  get_word, path_word, version_word, get_IsWord, path_IsWord, version_IsWord, http_in_version, host,
  printable,
}
use levin.Hyper.Parser.Upgraded.{switching_text}
use levin.Hyper.Tests.{small_h2}
use levin.Connection.{
  Connection, connection_made, data_received, run_future, offer_transport, Handler,
}
use levin.Server.Serving.{AnyParser, parser_ops, handle_connection}
use levin.Server.Serving.Requests.{first_future}
use levin.Server.Serving.Upgrade.{upgrades_http1}
use levin.Server.Serving.Always.{answers_http1, IsSorry}
use levin.Hyper.Parser.{asks_h2c}
use levin.Result.{err, raised, ok}
use levin.Server.Serving.Application.{answers_default, app_handler, app_out, IsAnsweredBy}
use levin.Middleware.Tests.{small_program, idle, called-IsKnown, always_error_page}
use levin.Middleware.{plain}
use levin.Http
use levin.Server.Tests.{feed, authority, wire, asked, used_response}

abbrev upgrade_headers : List (Bytes × Bytes)
upgrade_headers = (codes "Upgrade", codes "h2c") ∷ (codes "HTTP2-Settings", codes "AA") ∷ []

upgrade_IsHeader : IsHeader (codes "Upgrade", codes "h2c")
upgrade_IsHeader = record {
  name_line = omega arith;
  name_solid = omega arith;
  name_trimmed = (refl, refl);
  content_line = omega arith;
  content_trimmed = (refl, refl);
}

settings_IsHeader : IsHeader (codes "HTTP2-Settings", codes "AA")
settings_IsHeader = record {
  name_line = omega arith;
  name_solid = omega arith;
  name_trimmed = (refl, refl);
  content_line = omega arith;
  content_trimmed = (refl, refl);
}

upgrade_IsPrintable : IsPrintable get_word path_word version_word upgrade_headers
upgrade_IsPrintable = record {
  method_word = get_IsWord;
  path_word = path_IsWord;
  version_word = version_IsWord;
  http = http_in_version;
  clean = (upgrade_IsHeader, (settings_IsHeader, tt));
}

abbrev upgrading : Request
upgrading =
    new_request path_word get_word (some (codes "q=1")) (lowered upgrade_headers) version_word 0
      (codes "http")

upgrades_http1_example :
    let ops = parser_ops small_h2 feed authority in
    let received =
      data_received ops
        (print_request get_word path_word version_word upgrade_headers (codes "q=1"))
        (connection_made ops wire (handle_connection used_response 9)) in
    (received.0 ≡ none)
    × (received.1.futures ≡ first_future (record upgrading { stream = 1 }) ∷ [])
    × (received.1.transport
        ≡ some (record wire { written = [] ++ (switching_text ++ codes "!") ∷ [] }))
unfolding lookup new_request create_headers_map put lower join
upgrades_http1_example =
    upgrades_http1 small_h2 feed authority used_response wire 9 9 9 get_word path_word version_word
      upgrade_headers (codes "q=1") upgrading 65 (codes "A") upgrade_IsPrintable (omega arith) refl
      refl refl refl refl

abbrev asked_stream : Request
asked_stream = record upgrading { stream = 1 }

-- The HTTP/2 parser is chosen and one request waits.
abbrev waiting : Connection (AnyParser ℕ)
waiting = record (handle_connection used_response 9) {
  transport = some wire;
  chosen = some 0;
  futures = first_future asked_stream ∷ [];
  next_future = 1;
}

used_IsSorry : IsSorry used_response
unfolding new_response
used_IsSorry = record { status = refl; body = refl }

abbrev give_up : Handler
give_up request = (err (raised 7), request)

answers_http1_example :
    let ops = parser_ops small_h2 feed authority in
    let received =
      data_received ops
        (print_request get_word path_word version_word host (codes "q=1"))
        (connection_made ops wire (handle_connection used_response 9)) in
    let done = run_future ops give_up (first_future asked) received.1 in
    (sorry : List Bytes) × (Http.handle_response used_response ≡ ok sorry)
    × (received.0 ≡ none)
    × (received.1.futures ≡ first_future asked ∷ [])
    × (done.futures ≡ [])
    × (done.transport ≡ some (record wire { written = [] ++ sorry }))
unfolding asks_h2c lookup new_request create_headers_map put lower
answers_http1_example =
    answers_http1 small_h2 feed authority give_up used_response wire 9 9 get_word path_word
      version_word host (codes "q=1") asked refl used_IsSorry printable (omega arith) refl refl refl

answers_default_example :
    let ops = parser_ops small_h2 feed authority in
    let received =
      data_received ops
        (print_request get_word path_word version_word host (codes "q=1"))
        (connection_made ops wire (handle_connection used_response 9)) in
    let done =
      run_future ops
        (app_handler small_program (plain 9 true []) idle)
        (first_future asked)
        received.1 in
    (sorry : List Bytes) × (Http.handle_response used_response ≡ ok sorry)
    × (chunks : List Bytes) × IsAnsweredBy sorry
        (app_out small_program (plain 9 true []) idle (offer_transport asked)).0
        chunks
    × (done.transport ≡ some (record wire { written = [] ++ chunks }))
    × (done.futures ≡ [])
unfolding asks_h2c lookup new_request create_headers_map put lower
answers_default_example =
    answers_default small_h2 feed authority small_program (plain 9 true []) idle used_response wire
      9 9 get_word path_word version_word host (codes "q=1") asked called-IsKnown always_error_page
      refl used_IsSorry printable (omega arith) refl refl refl
